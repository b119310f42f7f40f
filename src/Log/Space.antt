-- ===== src/Log/Space.antt =====
-- The space of the log: begin_op, end_op and log_write of log.c.
use computer_science_project.Prelude.Words.{sub_w, slt}
use computer_science_project.Prelude.{
  ℕ, suc, ◌+◌, ◌-◌, ◌*◌, ◌^◌, ◌<◌, ◌≤◌, ◌≡◌, inl, inr, refl, ap, sym, ◌∙◌, Bool, true, false, some,
  List, [], ◌∷◌, ◌++◌, ◌==◌, if◌then◌else◌, length, arith, All, ◌⊎◌, dec_lt, none,
}
use computer_science_project.Log.{
  Log, log_size, max_op_blocks, started, begin_op, end_op, end_commit, absorb, log_write,
}
use computer_science_project.Log.Redo.{in_header}
use computer_science_project.Log.Absorb.{length-absorb, in_absorb}

abbrev pub total : List ℕ → ℕ
total [] = 0
total (q ∷ qs) = q + total qs

-- The operations in progress with the blocks that each may still write, of the ten that it may.
-- A write uses one of them up; the last operation to end commits, and the log is empty.
pub data Step : Log → List ℕ → Log → List ℕ → Type 0 where
  begins : {l t : Log} (qs : List ℕ) → begin_op l ≡ started t → Step l qs t (max_op_blocks ∷ qs)
  writes :
      {l t : Log} (front back : List ℕ) (q b : ℕ)
      → log_write b l ≡ some t
      → Step l (front ++ suc q ∷ back) t (front ++ q ∷ back)
  ends :
      {l t : Log} (front back : List ℕ) (q : ℕ)
      → end_op l ≡ some (t, false)
      → Step l (front ++ q ∷ back) t (front ++ back)
  commits : {l t : Log} (q : ℕ) → end_op l ≡ some (t, true) → Step l (q ∷ []) (end_commit t) []

pub data Reaches : Log → List ℕ → Log → List ℕ → Type 0 where
  none_yet : {l : Log} {qs : List ℕ} → Reaches l qs l qs
  then_step :
      {l t u : Log} {qs rs ss : List ℕ} → Reaches l qs t rs → Step t rs u ss → Reaches l qs u ss

-- The log has room for what the operations in progress may still write.
pub record IsReserved (l : Log) (qs : List ℕ) : Type 0 where
  pub counted : l.outstanding ≡ length qs
  pub allowed : All (λ q. q ≤ max_op_blocks) qs
  pub few : l.outstanding * max_op_blocks ≤ log_size
  pub room : length l.lh + total qs ≤ log_size
  pub inside : l.size ≡ log_size
  pub open_log : l.committing ≡ false

total-append : (front back : List ℕ) → total (front ++ back) ≡ total front + total back
total-append [] back = omega arith
total-append (q ∷ front) back = omega (arith, total-append front back)

total_bound : (qs : List ℕ) → All (λ q. q ≤ max_op_blocks) qs → total qs ≤ length qs * max_op_blocks
total_bound [] all = omega arith
total_bound (q ∷ qs) all = omega (arith, all.0, total_bound qs all.1)

All-replaced :
    (front back : List ℕ) (q r : ℕ)
    → r ≤ q
    → All (λ q. q ≤ max_op_blocks) (front ++ q ∷ back)
    → All (λ q. q ≤ max_op_blocks) (front ++ r ∷ back)
All-replaced [] back q r h all = (omega (arith, all.0), all.1)
All-replaced (p ∷ front) back q r h all = (all.0, All-replaced front back q r h all.1)

All-dropped :
    (front back : List ℕ) (q : ℕ)
    → All (λ q. q ≤ max_op_blocks) (front ++ q ∷ back)
    → All (λ q. q ≤ max_op_blocks) (front ++ back)
All-dropped [] back q all = all.1
All-dropped (p ∷ front) back q all = (all.0, All-dropped front back q all.1)

length-between :
    (front back : List ℕ) (q : ℕ) → length (front ++ q ∷ back) ≡ suc (length (front ++ back))
length-between [] back q = refl
length-between (p ∷ front) back q = ap suc (length-between front back q)

begin_op_inv :
    (l t : Log)
    → begin_op l ≡ started t
    → (t ≡ record l { outstanding = l.outstanding + 1 })
      × (length l.lh + (l.outstanding + 1) * max_op_blocks ≤ log_size)
unfolding begin_op
begin_op_inv l t h = (ground arith, ground arith)

log_write_inv : (b : ℕ) (l t : Log) → log_write b l ≡ some t → t ≡ record l { lh = absorb b l.lh }
unfolding log_write
log_write_inv b l t h = ground arith

end_op_inv :
    (l t : Log) (last : Bool)
    → end_op l ≡ some (t, last)
    → 0 < l.outstanding
    → l.outstanding < 2 ^ 32
    → (t.outstanding ≡ l.outstanding - 1)
      × (t.lh ≡ l.lh)
      × (t.size ≡ l.size)
      × (t.committing ≡ last)
unfolding end_op sub_w
end_op_inv l t last h pos small = (ground arith, ground arith, ground arith, ground arith)

Step-IsReserved : {l t : Log} {qs rs : List ℕ} → Step l qs t rs → IsReserved l qs → IsReserved t rs
unfolding end_commit
Step-IsReserved (begins {l} {t} qs h) w =
    let (e, room) = begin_op_inv l t h in
    rw e record {
      counted = omega (arith, w.counted);
      allowed = (omega arith, w.allowed);
      few = omega (arith, room);
      room = omega (arith, room, w.counted, total_bound qs w.allowed);
      inside = w.inside;
      open_log = w.open_log;
    }
Step-IsReserved (writes {l} {t} front back q b h) w = rw (log_write_inv b l t h) record {
  counted = w.counted ∙ (length-between front back (suc q) ∙ sym (length-between front back q));
  allowed = All-replaced front back (suc q) q (omega arith) w.allowed;
  few = w.few;
  room = omega (
    arith,
    w.room,
    length-absorb b l.lh,
    total-append front (suc q ∷ back),
    total-append front (q ∷ back),
  );
  inside = w.inside;
  open_log = w.open_log;
}
Step-IsReserved (ends {l} {t} front back q h) w =
    let size = length-between front back q in
    let (out, same, inside, idle) =
      end_op_inv l t false h (omega (arith, w.counted, size)) (omega (arith, w.few)) in
    record {
      counted = omega (arith, out, w.counted, size);
      allowed = All-dropped front back q w.allowed;
      few = omega (arith, out, w.few);
      room =
          rw same (omega (arith, w.room, total-append front (q ∷ back), total-append front back));
      inside = inside ∙ w.inside;
      open_log = idle;
    }
Step-IsReserved (commits {l} {t} q h) w =
    let (out, same, inside, idle) =
      end_op_inv l t true h (omega (arith, w.counted)) (omega (arith, w.few)) in
    record {
      counted = omega (arith, out, w.counted);
      allowed = tt;
      few = omega (arith, out, w.few);
      room = omega arith;
      inside = inside ∙ w.inside;
      open_log = refl;
    }

Reaches-IsReserved :
    {l t : Log} {qs rs : List ℕ} → Reaches l qs t rs → IsReserved l qs → IsReserved t rs
Reaches-IsReserved none_yet w = w
Reaches-IsReserved (then_step r s) w = Step-IsReserved s (Reaches-IsReserved r w)

pub log_write-room :
    (b : ℕ) (l : Log)
    → length l.lh + 1 < log_size
    → l.size ≡ log_size
    → 0 < l.outstanding
    → l.outstanding < 2 ^ 31
    → log_write b l ≡ some (record l { lh = absorb b l.lh })
unfolding log_write slt
log_write-room b l room inside pos small = ground arith

pub log_write-full :
    (b : ℕ) (l : Log) → log_size ≤ length l.lh + 1 → l.size ≡ log_size → log_write b l ≡ none
unfolding log_write
log_write-full b l full inside = ground arith

-- From a log of size 30, as mkfs.c makes it, with at most 30 blocks in the header, no operation in
-- progress and no commit, however operations begin, write, end and commit, where each may write ten
-- times: while an operation has a write left, log_write panics if the header has 29 blocks, and else
-- has fewer, and puts the block into the header beside those that it had, at most 29 then.
pub log_write_lem :
    (l t : Log) (front back : List ℕ) (q b : ℕ)
    → IsReserved l []
    → Reaches l [] t (front ++ suc q ∷ back)
    → ((length t.lh ≡ log_size - 1) × (log_write b t ≡ none))
      ⊎ ((u : Log) × (log_write b t ≡ some u)
          × (length t.lh < log_size - 1)
          × (length u.lh ≤ log_size - 1)
          × ((j : ℕ) → in_header j u.lh ≡ (if j == b then true else in_header j t.lh)))
log_write_lem l t front back q b w r =
    let v = Reaches-IsReserved r w in
    let size = length-between front back (suc q) in
    let some_left : length t.lh < log_size =
      omega (arith, v.room, total-append front (suc q ∷ back)) in
    elim (dec_lt (length t.lh) (log_size - 1)) [
      | no full ↦ inl (omega arith, log_write-full b t (omega arith) v.inside)
      | yes room ↦ inr (
        record t { lh = absorb b t.lh },
        log_write-room b t (omega arith) v.inside (omega (arith, v.counted, size))
            (omega (arith, v.few)),
        room,
        omega (arith, room, length-absorb b t.lh),
        λ j. in_absorb b j t.lh,
      )
    ]
