-- ===== src/Kernel/Pipe.antt =====
-- The pipes of pipe.c in Operating system/file system/xv6-public. nread and nwrite are uint, which wrap. The
-- lists of bytes stand for addr and n; a call that sleeps says what it has still to do.
pub mod Ring
pub mod Fifo
pub mod Refine
use computer_science_project.Prelude.{
  ℕ, ◌+◌, ◌%◌, ◌^◌, Bool, true, false, not, ◌&&◌, ◌||◌, Option, none, some, List, [], ◌∷◌, zero,
  suc, ◌==◌, if◌then◌else◌, get_or, set, replicate,
}

abbrev pub pipe_size : ℕ
pipe_size = 512

pub record Pipe : Type 0 where
  pub bytes : List ℕ
  pub nread : ℕ
  pub nwrite : ℕ
  pub readopen : Bool
  pub writeopen : Bool

-- The two channels that wakeup and sleep take.
pub data Channel : Type 0 where
  at_nread at_nwrite : Channel

-- `write_sleeps` and `read_sleeps`: the process sleeps on the other side's channel; a writer has the
-- given bytes left.
pub data Written : Type 0 where
  written : Written
  write_failed : Written
  write_sleeps : List ℕ → Written

pub data ReadOut : Type 0 where
  read_out : List ℕ → ReadOut
  read_failed : ReadOut
  read_sleeps : ReadOut

-- What pipealloc does with the page that kalloc gave; the bytes of the page are what they are.
unfoldable pub fresh_pipe : List ℕ → Pipe
fresh_pipe page = record { bytes = page; nread = 0; nwrite = 0; readopen = true; writeopen = true }

-- p->nwrite == p->nread + PIPESIZE
unfoldable pub is_full : Pipe → Bool
is_full p = p.nwrite == (p.nread + pipe_size) % 2 ^ 32

unfoldable pub is_empty : Pipe → Bool
is_empty p = p.nread == p.nwrite

-- p->data[p->nwrite++ % PIPESIZE] = x
unfoldable pub put_byte : ℕ → Pipe → Pipe
put_byte x p = record p {
  bytes = set p.bytes (p.nwrite % pipe_size) x;
  nwrite = (p.nwrite + 1) % 2 ^ 32;
}

-- p->data[p->nread++ % PIPESIZE]
unfoldable pub next_byte : Pipe → ℕ
next_byte p = get_or p.bytes (p.nread % pipe_size) 0

unfoldable pub skip_byte : Pipe → Pipe
skip_byte p = record p { nread = (p.nread + 1) % 2 ^ 32 }

-- pipewrite up to its end or to the next sleep, with the channels that it wakes. Whoever sleeps goes on
-- with the bytes left.
unfoldable pub pipewrite : Bool → List ℕ → Pipe → Written × List Channel × Pipe
unfolding is_full put_byte
pipewrite killed [] p = (written, at_nread ∷ [], p)
pipewrite killed (x ∷ xs) p =
    let rest = pipewrite killed xs (put_byte x p) in
    if is_full p
    then (if not p.readopen || killed
        then (write_failed, [], p)
        else (write_sleeps (x ∷ xs), at_nread ∷ [], p))
    else rest

-- the copying loop of piperead
unfoldable pub read_loop : ℕ → Pipe → List ℕ × Pipe
unfolding is_empty next_byte skip_byte
read_loop zero p = ([], p)
read_loop (suc n) p =
    let rest = read_loop n (skip_byte p) in
    if is_empty p then ([], p) else (next_byte p ∷ rest.0, rest.1)

-- piperead up to its end or to the next sleep
unfoldable pub piperead : Bool → ℕ → Pipe → ReadOut × List Channel × Pipe
unfolding is_empty read_loop
piperead killed n p =
    if is_empty p && p.writeopen
    then (if killed then (read_failed, [], p) else (read_sleeps, [], p))
    else (read_out (read_loop n p).0, at_nwrite ∷ [], (read_loop n p).1)

-- The flag: both ends are closed, and the page goes to kfree.
unfoldable pub pipeclose : Bool → Pipe → Bool × List Channel × Pipe
pipeclose writable p =
    if writable
    then (not p.readopen, at_nread ∷ [], record p { writeopen = false })
    else (not p.writeopen, at_nwrite ∷ [], record p { readopen = false })

pub data PipeCall : Type 0 where
  call_write : Bool → List ℕ → PipeCall
  call_read : Bool → ℕ → PipeCall
  call_close : Bool → PipeCall

pub data Reply : Type 0 where
  of_write : Written → Reply
  of_read : ReadOut → Reply
  of_close : Bool → Reply

unfoldable pub serve : PipeCall → Pipe → Reply × List Channel × Pipe
unfolding pipewrite piperead pipeclose
serve (call_write killed xs) p = let (r, wakes, q) = pipewrite killed xs p in (of_write r, wakes, q)
serve (call_read killed n) p = let (r, wakes, q) = piperead killed n p in (of_read r, wakes, q)
serve (call_close writable) p = let (r, wakes, q) = pipeclose writable p in (of_close r, wakes, q)

-- The replies to calls one after the other, with the channels that each wakes.
unfoldable pub replies : List PipeCall → Pipe → List (Reply × List Channel)
unfolding serve
replies [] p = []
replies (c ∷ calls) p = let (r, wakes, q) = serve c p in (r, wakes) ∷ replies calls q
