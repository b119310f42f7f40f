-- ===== src/Sched/Rounds.antt =====
-- The ring of waiting processes and the turns of the scheduler under MULTILEVEL_SCHED.
use computer_science_project.Prelude.{
  ℕ, zero, suc, ◌+◌, ◌-◌, ◌%◌, ◌<◌, ◌≤◌, ◌≡◌, ◌≢◌, ◌⊎◌, inl, inr, refl, ap, sym, ◌∙◌, true, false,
  some, List, [], ◌∷◌, ◌==◌, arith, length, get_or, set, Bool-cases, get_or-set_self, get_or-set_ne,
  length-set, ==_iff, ==_refl, ==-of_ne,
}
use computer_science_project.Sched.{Proc, no_proc, Kernel, proc_at, is_runnable}
use computer_science_project.Sched.Queue.{
  Ring, in_from, in_qu, push, pop, get, emp, even_exist, run_now, waits, turn,
}

-- The indices are inside the array.
pub record IsRing (q : Ring) : Type 0 where
  pub front_inside : q.front < 80
  pub rear_inside : q.rear < 80
  pub size : length q.arr ≡ 81

abbrev appended : ℕ → Ring → Ring
appended a q = record { arr = set q.arr (q.rear % 80) a; front = q.front; rear = (q.rear + 1) % 80 }

push-cases :
    (a : ℕ) (k : Kernel) (q : Ring)
    → ((push a k q ≡ q) × (in_qu a k q ≡ true))
      ⊎ ((push a k q ≡ appended a q) × (in_qu a k q ≡ false))
unfolding push
push-cases a k q = elim (Bool-cases (in_qu a k q)) [
  | inl t ↦ inl (rw (t, push) refl, t)
  | inr f ↦ inr (rw (f, push) refl, f)
]

-- push and pop keep the indices inside the array.
pub push-IsRing : (a : ℕ) (k : Kernel) (q : Ring) → IsRing q → IsRing (push a k q) × IsRing (pop q)
unfolding pop
push-IsRing a k q w = elim (push-cases a k q) [
  | inl (e, i) ↦ (rw e w, popped)
  | inr (e, i) ↦ (
    rw e record {
      front_inside = w.front_inside;
      rear_inside = omega arith;
      size = length-set q.arr _ a ∙ w.size;
    },
    popped,
  )
]
  where
    popped : IsRing (pop q)
    popped = elim (Bool-cases (q.front == q.rear)) [
      | inl t ↦ rw (t, pop) w
      | inr f ↦
          rw (f, pop)
            record { front_inside = omega arith; rear_inside = w.rear_inside; size = w.size }
    ]

add_zero : (i : ℕ) → i ≡ i + 0
add_zero i = omega arith

add_suc : (i m : ℕ) → i + 1 + m ≡ i + suc m
add_suc i m = omega arith

in_from-found :
    (n i m pid : ℕ) (k : Kernel) (q : Ring)
    → m < n
    → (proc_at k (get_or q.arr (i + m) 0)).pid ≡ pid
    → in_from n i pid k q ≡ true
unfolding in_from
in_from-found zero i m pid k q lt h = absurd (omega arith)
in_from-found (suc n) i zero pid k q lt h =
    ground (arith, ap (λ (x : ℕ). (proc_at k (get_or q.arr x 0)).pid) (add_zero i) ∙ h)
in_from-found (suc n) i (suc m) pid k q lt h =
    let rest =
      in_from-found n (i + 1) m pid k q (omega arith)
        (ap (λ (x : ℕ). (proc_at k (get_or q.arr x 0)).pid) (add_suc i m) ∙ h) in
    ground (arith, rest)

appended-in_qu :
    (a : ℕ) (k : Kernel) (q : Ring)
    → IsRing q
    → q.front ≤ q.rear
    → q.rear < 79
    → in_qu a k (appended a q) ≡ true
unfolding in_qu
appended-in_qu a k q w order room =
    in_from-found ((q.rear + 1) % 80 - q.front) q.front (q.rear - q.front) (proc_at k a).pid k
      (appended a q) (omega arith)
      (ap (λ (x : ℕ). (proc_at k x).pid)
        (ap (λ (i : ℕ). get_or (set q.arr (q.rear % 80) a) i 0) (last order room)
          ∙ get_or-set_self q.arr (q.rear % 80) a 0 (omega (arith, w.size))))
  where
    last : q.front ≤ q.rear → q.rear < 79 → q.front + (q.rear - q.front) ≡ q.rear % 80
    last h g = omega arith

push-again : (a : ℕ) (k : Kernel) (q : Ring) → in_qu a k q ≡ true → push a k q ≡ q
unfolding push
push-again a k q t = rw (t, push) refl

push-new : (a : ℕ) (k : Kernel) (q : Ring) → in_qu a k q ≡ false → push a k q ≡ appended a q
unfolding push
push-new a k q f = rw (f, push) refl

in_qu-wrapped : (a : ℕ) (k : Kernel) (q : Ring) → q.rear ≤ q.front → in_qu a k q ≡ false
unfolding in_qu in_from
in_qu-wrapped a k q h = let empty : q.rear - q.front ≡ 0 = omega arith in rw empty refl

-- Where the ring of waiting processes has not wrapped around and has room, a process that was pushed
-- is found, and pushing it again changes nothing.
pub push-in_qu :
    (a : ℕ) (k : Kernel) (q : Ring)
    → IsRing q
    → q.front ≤ q.rear
    → q.rear < 79
    → (in_qu a k (push a k q) ≡ true) × (push a k (push a k q) ≡ push a k q)
push-in_qu a k q w order room = elim (push-cases a k q) [
  | inl (e, i) ↦ (ap (in_qu a k) e ∙ i, ap (push a k) e)
  | inr (e, i) ↦
      let found = appended-in_qu a k q w order room in
      (ap (in_qu a k) e ∙ found, ap (push a k) e ∙ (push-again a k (appended a q) found ∙ sym e))
]

two_slots :
    (a : ℕ) (q : Ring)
    → IsRing q
    → q.rear < 79
    → (get_or (set (set q.arr (q.rear % 80) a) ((q.rear + 1) % 80 % 80) a) q.rear 0 ≡ a)
      × (get_or (set (set q.arr (q.rear % 80) a) ((q.rear + 1) % 80 % 80) a) (q.rear + 1) 0 ≡ a)
two_slots a q w room =
    let m1 : q.rear % 80 ≡ q.rear = omega arith in
    let m2 : (q.rear + 1) % 80 % 80 ≡ q.rear + 1 = omega arith in
    rw (m1, m2)
      (
        get_or-set_ne (set q.arr q.rear a) (q.rear + 1) q.rear a 0 (omega arith)
            ∙ get_or-set_self q.arr q.rear a 0 (omega (arith, w)),
        get_or-set_self (set q.arr q.rear a) (q.rear + 1) a 0
            (rw (length-set q.arr q.rear a) (omega (arith, w))),
      )

-- Where the ring has wrapped around, a process is never found in it, and one that is pushed twice
-- stands in it twice.
pub push-wrapped :
    (a : ℕ) (k : Kernel) (q : Ring)
    → IsRing q
    → q.rear + 2 < q.front
    → (in_qu a k q ≡ false)
      × ((push a k (push a k q)).rear ≡ q.rear + 2)
      × (get_or (push a k (push a k q)).arr q.rear 0 ≡ a)
      × (get_or (push a k (push a k q)).arr (q.rear + 1) 0 ≡ a)
push-wrapped a k q w order =
    let none1 = in_qu-wrapped a k q (omega arith) in
    let e1 = push-new a k q none1 in
    let none2 = in_qu-wrapped a k (appended a q) (omega (arith, order, w)) in
    let e2 = ap (push a k) e1 ∙ push-new a k (appended a q) none2 in
    let both = two_slots a q w (omega (arith, w)) in
    (
      none1,
      ap (λ (r : Ring). r.rear) e2 ∙ omega (arith, order, w),
      ap (λ (r : Ring). get_or r.arr q.rear 0) e2 ∙ both.0,
      ap (λ (r : Ring). get_or r.arr (q.rear + 1) 0) e2 ∙ both.1,
    )

-- A process that is pushed into an empty ring is the next one out, and the ring is empty after it.
pub push-get :
    (a : ℕ) (k : Kernel) (q : Ring)
    → IsRing q
    → emp q ≡ true
    → (get (push a k q) ≡ some a) × (emp (push a k q) ≡ false) × (emp (pop (push a k q)) ≡ true)
push-get a k q w e =
    let same : q.front ≡ q.rear = unfold emp in (==_iff q.front q.rear).0 e in
    let e1 = push-new a k q (in_qu-wrapped a k q (omega arith)) in
    let differ : (q.front == (q.rear + 1) % 80) ≡ false =
      ==-of_ne q.front ((q.rear + 1) % 80) (omega (arith, w)) in
    let place : q.rear % 80 ≡ q.front = omega (arith, w) in
    let next_front : (q.front + 1) % 80 ≡ (q.rear + 1) % 80 = ap (λ (n : ℕ). (n + 1) % 80) same in
    (
      ap get e1
          ∙ (unfold get in
              rw differ
                (rw place (ap some (get_or-set_self q.arr q.front a 0 (omega (arith, w)))))),
      ap emp e1 ∙ (unfold emp in differ),
      ap (λ (r : Ring). emp (pop r)) e1
          ∙ (unfold emp pop in rw differ (rw next_front (==_refl ((q.rear + 1) % 80)))),
    )

exists_even :
    (procs : List Proc) (m : ℕ)
    → m < length procs
    → is_runnable (get_or procs m no_proc) ≡ true
    → (get_or procs m no_proc).pid % 2 ≡ 0
    → (get_or procs m no_proc).pid ≢ 2
    → even_exist procs ≡ true
unfolding even_exist
exists_even [] m lt r even ne = absurd (omega arith)
exists_even (p ∷ procs) zero lt r even ne = rw (r, even, ==-of_ne p.pid 2 ne) refl
exists_even (p ∷ procs) (suc m) lt r even ne =
    ground (arith, exists_even procs m (omega arith) r even ne)

-- With a runnable process m whose pid is even and not 2, the loop of the multilevel scheduler runs
-- m, and sends every runnable process with an odd pid other than 1 to the ring.
pub turn_lem :
    (procs : List Proc) (m : ℕ)
    → m < length procs
    → is_runnable (get_or procs m no_proc) ≡ true
    → (get_or procs m no_proc).pid % 2 ≡ 0
    → (get_or procs m no_proc).pid ≢ 2
    → (even_exist procs ≡ true)
      × ((p : Proc)
          → is_runnable p ≡ true
          → p.pid % 2 ≡ 1
          → p.pid ≢ 1
          → turn (even_exist procs) p ≡ waits)
      × (turn (even_exist procs) (get_or procs m no_proc) ≡ run_now)
turn_lem procs m lt r even ne =
    let e = exists_even procs m lt r even ne in
    (e, λ p rp odd ne1. rw e (unfold turn in ground arith), rw e (unfold turn in ground arith))
