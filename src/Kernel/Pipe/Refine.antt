-- ===== src/Kernel/Pipe/Refine.antt =====
-- The pipe of pipe.c against the queue that it implements.
use computer_science_project.Prelude.{
  ℕ, zero, suc, ◌-◌, ◌<◌, ◌≡◌, refl, sym, ap, ◌∙◌, inl, inr, Bool, true, false, not, ◌||◌, ◌&&◌,
  List, [], ◌∷◌, ◌++◌, take, drop, length, arith, on_test, Bool-cases, length-append, if◌then◌else◌,
}
use computer_science_project.Kernel.Pipe.{
  Pipe, pipe_size, Channel, at_nread, at_nwrite, written, write_failed, write_sleeps, PipeCall,
  call_write, call_read, call_close, is_full, is_empty, put_byte, next_byte, skip_byte, read_loop,
  pipewrite, piperead, pipeclose, serve, replies, fresh_pipe, read_out, read_failed, read_sleeps,
  of_write, of_read, of_close, at_nwrite,
}
use computer_science_project.Kernel.Pipe.Ring.{
  held, contents, IsPipe, length-contents, held-full, held-not_full, put_byte-IsPipe,
  contents-put_byte, is_empty-held, contents-skip_byte, skip_byte-IsPipe,
}
use computer_science_project.Kernel.Pipe.Fifo.{
  Fifo, nothing_queued, leftover, fifo_write, fifo_read, fifo_close, fifo_serve, fifo_replies,
}

abbrev pub view : Pipe → Fifo
view p = record { queued = contents p; read_end = p.readopen; write_end = p.writeopen }

-- An outcome on the pipe, seen as one on the queue, from a pipe that stays well-formed.
abbrev Agrees {ℓ} : {A : Type ℓ} → A × List Channel × Pipe → A × List Channel × Fifo → Type ℓ
Agrees (r, wakes, p) o = ((r, wakes, view p) ≡ o) × IsPipe p

append_nil : (xs : List ℕ) → xs ++ [] ≡ xs
append_nil [] = refl
append_nil (x ∷ xs) = ap (λ ys. x ∷ ys) (append_nil xs)

append_assoc : (xs : List ℕ) (y : ℕ) (ys : List ℕ) → (xs ++ y ∷ []) ++ ys ≡ xs ++ y ∷ ys
append_assoc [] y ys = refl
append_assoc (x ∷ xs) y ys = ap (λ zs. x ∷ zs) (append_assoc xs y ys)

nothing_taken : (n : ℕ) → take {A = ℕ} n [] ≡ []
nothing_taken zero = refl
nothing_taken (suc n) = refl

nothing_dropped : (n : ℕ) → drop {A = ℕ} n [] ≡ []
nothing_dropped zero = refl
nothing_dropped (suc n) = refl

view-put_byte :
    (x : ℕ) (p : Pipe)
    → IsPipe p
    → held p < pipe_size
    → view (put_byte x p) ≡ record (view p) { queued = contents p ++ x ∷ [] }
unfolding put_byte
view-put_byte x p ok lt = ap (λ xs. record (view p) { queued = xs }) (contents-put_byte x p ok lt)

module _ (killed : Bool) where
  fifo_write-nil : (q : Fifo) → fifo_write killed [] q ≡ (written, at_nread ∷ [], q)
  unfolding fifo_write leftover
  fifo_write-nil q =
      rw
        (
          nothing_taken (pipe_size - length q.queued),
          nothing_dropped (pipe_size - length q.queued),
          append_nil q.queued,
        )
        refl

  -- A queue with room takes the first byte and goes on.
  fifo_write-cons :
      (x : ℕ) (xs : List ℕ) (q : Fifo)
      → length q.queued < pipe_size
      → fifo_write killed (x ∷ xs) q
        ≡ fifo_write killed xs (record q { queued = q.queued ++ x ∷ [] })
  unfolding fifo_write
  fifo_write-cons x xs q lt =
      let room = pipe_size - length (q.queued ++ x ∷ []) in
      let more : pipe_size - length q.queued ≡ suc room =
        omega (arith, length-append q.queued (x ∷ [])) in
      rw (more, append_assoc q.queued x (take room xs)) refl

  fifo_write-full :
      (x : ℕ) (xs : List ℕ) (q : Fifo)
      → length q.queued ≡ pipe_size
      → fifo_write killed (x ∷ xs) q ≡ (
          if not q.read_end || killed
          then (write_failed, [], q)
          else (write_sleeps (x ∷ xs), at_nread ∷ [], q))
  unfolding fifo_write leftover
  fifo_write-full x xs q full =
      let none_left : pipe_size - length q.queued ≡ 0 = omega arith in
      rw (none_left, append_nil q.queued) refl

  pipewrite-Agrees :
      (xs : List ℕ) (p : Pipe)
      → IsPipe p
      → Agrees (pipewrite killed xs p) (fifo_write killed xs (view p))
  unfolding pipewrite
  pipewrite-Agrees [] p ok = (sym (fifo_write-nil (view p)), ok)
  pipewrite-Agrees (x ∷ xs) p ok = elim (Bool-cases (is_full p)) [
    | inl full ↦
        let e = length-contents p ∙ held-full p ok full in
        rw full (
          on_test (λ o. Agrees o (fifo_write killed (x ∷ xs) (view p))) (not p.readopen || killed)
            (λ t. (sym (fifo_write-full x xs (view p) e ∙ rw t refl), ok))
            (λ f. (sym (fifo_write-full x xs (view p) e ∙ rw f refl), ok)))
    | inr room ↦
        let lt = held-not_full p ok room in
        let later = pipewrite-Agrees xs (put_byte x p) (put_byte-IsPipe x p ok lt) in
        let small : length (contents p) < pipe_size = rw (length-contents p) lt in
        rw room (
          later.0
              ∙ ap (fifo_write killed xs) (view-put_byte x p ok lt)
              ∙ sym (fifo_write-cons x xs (view p) small),
          later.1,
        )
  ]

read_loop-take :
    (n : ℕ) (p : Pipe)
    → IsPipe p
    → ((read_loop n p).0 ≡ take n (contents p))
      × (view (read_loop n p).1 ≡ record (view p) { queued = drop n (contents p) })
      × IsPipe (read_loop n p).1
unfolding read_loop skip_byte
read_loop-take zero p ok = (refl, refl, ok)
read_loop-take (suc n) p ok = elim (Bool-cases (is_empty p)) [
  | inl t ↦ let none_held = is_empty-held p ok t in rw (t, none_held) (refl, refl, ok)
  | inr f ↦
      let (same, seen, later) = read_loop-take n (skip_byte p) (skip_byte-IsPipe p ok f) in
      rw (f, contents-skip_byte p ok f) (ap (λ ys. next_byte p ∷ ys) same, seen, later)
]

piperead_waits :
    (killed : Bool) (p : Pipe)
    → IsPipe p
    → Agrees
        (if killed then (read_failed, [], p) else (read_sleeps, [], p))
        (if killed then (read_failed, [], view p) else (read_sleeps, [], view p))
piperead_waits true p ok = (refl, ok)
piperead_waits false p ok = (refl, ok)

is_empty-nothing_queued : (p : Pipe) → IsPipe p → is_empty p ≡ nothing_queued (contents p)
is_empty-nothing_queued p ok = elim (Bool-cases (is_empty p)) [
  | inl t ↦ rw (t, is_empty-held p ok t) refl
  | inr f ↦ rw (f, contents-skip_byte p ok f) refl
]

piperead-Agrees :
    (killed : Bool) (n : ℕ) (p : Pipe)
    → IsPipe p
    → Agrees (piperead killed n p) (fifo_read killed n (view p))
unfolding piperead fifo_read
piperead-Agrees killed n p ok =
    let (same, seen, later) = read_loop-take n p ok in
    rw (is_empty-nothing_queued p ok)
      (elim (Bool-cases (nothing_queued (contents p) && p.writeopen)) [
        | inl t ↦ rw t (piperead_waits killed p ok)
        | inr f ↦
            rw (f, same) (ap (λ q. (read_out (take n (contents p)), at_nwrite ∷ [], q)) seen, later)
      ])

pipeclose-Agrees :
    (writable : Bool) (p : Pipe)
    → IsPipe p
    → Agrees (pipeclose writable p) (fifo_close writable (view p))
unfolding pipeclose fifo_close
pipeclose-Agrees true p ok = (
  refl,
  record {
    storage = ok.storage;
    read_word = ok.read_word;
    write_word = ok.write_word;
    room = ok.room;
  },
)
pipeclose-Agrees false p ok = (
  refl,
  record {
    storage = ok.storage;
    read_word = ok.read_word;
    write_word = ok.write_word;
    room = ok.room;
  },
)

-- One call gives the reply of the queue, wakes the same channels and leaves the pipe well-formed with
-- what the queue then holds.
serve-Agrees : (c : PipeCall) (p : Pipe) → IsPipe p → Agrees (serve c p) (fifo_serve c (view p))
unfolding serve fifo_serve
serve-Agrees (call_write killed xs) p ok =
    let (same, later) = pipewrite-Agrees killed xs p ok in
    (ap (λ o. (of_write o.0, o.1, o.2)) same, later)
serve-Agrees (call_read killed n) p ok =
    let (same, later) = piperead-Agrees killed n p ok in
    (ap (λ o. (of_read o.0, o.1, o.2)) same, later)
serve-Agrees (call_close writable) p ok =
    let (same, later) = pipeclose-Agrees writable p ok in
    (ap (λ o. (of_close o.0, o.1, o.2)) same, later)

-- On a well-formed pipe, however writes, reads and closes follow each other, every call gives the
-- reply, and wakes the channels, of the queue of at most 512 bytes that holds the contents of the
-- pipe, also where the counters wrap around.
pub replies-fifo_replies :
    (calls : List PipeCall) (p : Pipe) → IsPipe p → replies calls p ≡ fifo_replies calls (view p)
unfolding replies fifo_replies
replies-fifo_replies [] p ok = refl
replies-fifo_replies (c ∷ calls) p ok =
    let (same, later) = serve-Agrees c p ok in
    rw (replies-fifo_replies calls (serve c p).2 later, ← same) refl

pub fresh_pipe-IsPipe : (page : List ℕ) → length page ≡ pipe_size → IsPipe (fresh_pipe page)
unfolding fresh_pipe
fresh_pipe-IsPipe page len = record {
  storage = len;
  read_word = omega arith;
  write_word = omega arith;
  room = omega arith;
}

-- fresh
pub fresh_pipe-fifo_replies :
    (page : List ℕ) (calls : List PipeCall)
    → length page ≡ pipe_size
    → replies calls (fresh_pipe page)
      ≡ fifo_replies calls (record { queued = []; read_end = true; write_end = true })
unfolding fresh_pipe
fresh_pipe-fifo_replies page calls len =
    replies-fifo_replies calls (fresh_pipe page) (fresh_pipe-IsPipe page len)
