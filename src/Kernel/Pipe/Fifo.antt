-- ===== src/Kernel/Pipe/Fifo.antt =====
-- What pipe.c promises: a queue of at most pipe_size bytes, with two ends that can be closed.
use computer_science_project.Prelude.{
  ℕ, ◌-◌, Bool, true, false, not, ◌&&◌, ◌||◌, List, [], ◌∷◌, ◌++◌, take, drop, length,
  if◌then◌else◌,
}
use computer_science_project.Kernel.Pipe.{
  pipe_size, Channel, at_nread, at_nwrite, Written, written, write_failed, write_sleeps, ReadOut,
  read_out, read_failed, read_sleeps, PipeCall, call_write, call_read, call_close, Reply, of_write,
  of_read, of_close,
}

pub record Fifo : Type 0 where
  pub queued : List ℕ
  pub read_end : Bool
  pub write_end : Bool

abbrev pub nothing_queued : List ℕ → Bool
nothing_queued [] = true
nothing_queued (x ∷ xs) = false

-- The end of a write with bytes left over: the writer sleeps, or fails where it is stuck.
unfoldable pub leftover : Bool → Fifo → List ℕ → Written × List Channel × Fifo
leftover stuck q [] = (written, at_nread ∷ [], q)
leftover stuck q (x ∷ xs) =
    if stuck then (write_failed, [], q) else (write_sleeps (x ∷ xs), at_nread ∷ [], q)

-- All that has room is queued. A writer that was killed, or that nobody can read from, is stuck.
unfoldable pub fifo_write : Bool → List ℕ → Fifo → Written × List Channel × Fifo
unfolding leftover
fifo_write killed xs q =
    let room = pipe_size - length q.queued in
    leftover (not q.read_end || killed) (record q { queued = q.queued ++ take room xs })
      (drop room xs)

-- An empty queue that can still be written to makes the reader sleep, or fail where it was killed.
unfoldable pub fifo_read : Bool → ℕ → Fifo → ReadOut × List Channel × Fifo
fifo_read killed n q =
    if nothing_queued q.queued && q.write_end
    then (if killed then (read_failed, [], q) else (read_sleeps, [], q))
    else (read_out (take n q.queued), at_nwrite ∷ [], record q { queued = drop n q.queued })

unfoldable pub fifo_close : Bool → Fifo → Bool × List Channel × Fifo
fifo_close writable q =
    if writable
    then (not q.read_end, at_nread ∷ [], record q { write_end = false })
    else (not q.write_end, at_nwrite ∷ [], record q { read_end = false })

unfoldable pub fifo_serve : PipeCall → Fifo → Reply × List Channel × Fifo
unfolding fifo_write fifo_read fifo_close
fifo_serve (call_write killed xs) q =
    let (r, wakes, after) = fifo_write killed xs q in (of_write r, wakes, after)
fifo_serve (call_read killed n) q =
    let (r, wakes, after) = fifo_read killed n q in (of_read r, wakes, after)
fifo_serve (call_close writable) q =
    let (r, wakes, after) = fifo_close writable q in (of_close r, wakes, after)

unfoldable pub fifo_replies : List PipeCall → Fifo → List (Reply × List Channel)
unfolding fifo_serve
fifo_replies [] q = []
fifo_replies (c ∷ calls) q =
    let (r, wakes, after) = fifo_serve c q in (r, wakes) ∷ fifo_replies calls after
