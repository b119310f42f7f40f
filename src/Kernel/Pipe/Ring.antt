-- ===== src/Kernel/Pipe/Ring.antt =====
-- The bytes that a pipe holds, in the array that pipe.c goes round in.
use computer_science_project.Prelude.{
  ℕ, zero, suc, ◌+◌, ◌-◌, ◌%◌, ◌^◌, ◌≤◌, ◌<◌, ◌≡◌, refl, ap, ◌∙◌, true, false, List, [], ◌∷◌, ◌++◌,
  get_or, set, length, length-set, get_or-set_self, get_or-set_ne, arith,
}
use computer_science_project.Kernel.Pipe.{
  Pipe, pipe_size, is_full, is_empty, put_byte, next_byte, skip_byte,
}

-- The n bytes from the counter r on.
abbrev pub bytes_from : List ℕ → ℕ → ℕ → List ℕ
bytes_from bytes r zero = []
bytes_from bytes r (suc n) = get_or bytes (r % pipe_size) 0 ∷ bytes_from bytes ((r + 1) % 2 ^ 32) n

abbrev pub held : Pipe → ℕ
held p = (p.nwrite + 2 ^ 32 - p.nread) % 2 ^ 32

abbrev pub contents : Pipe → List ℕ
contents p = bytes_from p.bytes p.nread (held p)

pub record IsPipe (p : Pipe) : Type 0 where
  pub storage : length p.bytes ≡ pipe_size
  pub read_word : p.nread < 2 ^ 32
  pub write_word : p.nwrite < 2 ^ 32
  pub room : held p ≤ pipe_size

length-bytes_from : (bytes : List ℕ) (r n : ℕ) → length (bytes_from bytes r n) ≡ n
length-bytes_from bytes r zero = refl
length-bytes_from bytes r (suc n) = ap suc (length-bytes_from bytes ((r + 1) % 2 ^ 32) n)

pub length-contents : (p : Pipe) → length (contents p) ≡ held p
length-contents p = length-bytes_from p.bytes p.nread (held p)

bytes_from-set :
    (bytes : List ℕ) (x r n w : ℕ)
    → length bytes ≡ pipe_size
    → r < 2 ^ 32
    → n < pipe_size
    → w ≡ (r + n) % 2 ^ 32
    → bytes_from (set bytes (w % pipe_size) x) r (suc n) ≡ bytes_from bytes r n ++ x ∷ []
bytes_from-set bytes x r zero w len word lt e =
    let same : w % pipe_size ≡ r % pipe_size = omega arith in
    rw (same, get_or-set_self bytes (r % pipe_size) x 0 (omega arith)) refl
bytes_from-set bytes x r (suc n) w len word lt e =
    rw
      (
        get_or-set_ne bytes (w % pipe_size) (r % pipe_size) x 0 (omega arith),
        bytes_from-set bytes x ((r + 1) % 2 ^ 32) n w len (omega arith) (omega arith) (omega arith),
      )
      refl

pub held-full : (p : Pipe) → IsPipe p → is_full p ≡ true → held p ≡ pipe_size
unfolding is_full
held-full p ok h = ground arith

pub held-not_full : (p : Pipe) → IsPipe p → is_full p ≡ false → held p < pipe_size
unfolding is_full
held-not_full p ok h = ground arith

pub put_byte-IsPipe : (x : ℕ) (p : Pipe) → IsPipe p → held p < pipe_size → IsPipe (put_byte x p)
unfolding put_byte
put_byte-IsPipe x p ok lt = record {
  storage = length-set p.bytes (p.nwrite % pipe_size) x ∙ ok.storage;
  read_word = ok.read_word;
  write_word = omega arith;
  room = omega arith;
}

pub contents-put_byte :
    (x : ℕ) (p : Pipe)
    → IsPipe p
    → held p < pipe_size
    → contents (put_byte x p) ≡ contents p ++ x ∷ []
unfolding put_byte
contents-put_byte x p ok lt =
    let more : held (put_byte x p) ≡ suc (held p) = omega arith in
    rw more
      (bytes_from-set p.bytes x p.nread (held p) p.nwrite ok.storage ok.read_word lt (omega arith))

pub is_empty-held : (p : Pipe) → IsPipe p → is_empty p ≡ true → held p ≡ 0
unfolding is_empty
is_empty-held p ok h = ground arith

pub held-positive : (p : Pipe) → IsPipe p → is_empty p ≡ false → held p ≡ suc (held (skip_byte p))
unfolding is_empty skip_byte
held-positive p ok h = ground arith

pub contents-skip_byte :
    (p : Pipe) → IsPipe p → is_empty p ≡ false → contents p ≡ next_byte p ∷ contents (skip_byte p)
unfolding next_byte skip_byte
contents-skip_byte p ok h = rw (held-positive p ok h) refl

pub skip_byte-IsPipe : (p : Pipe) → IsPipe p → is_empty p ≡ false → IsPipe (skip_byte p)
unfolding skip_byte
skip_byte-IsPipe p ok h =
    let less = held-positive p ok h in
    record {
      storage = ok.storage;
      read_word = omega arith;
      write_word = ok.write_word;
      room = omega arith;
    }
