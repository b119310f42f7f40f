-- ===== src/Kernel/Tests.antt =====
-- Pipes, files and buffers at concrete values.
use computer_science_project.Prelude.{
  ℕ, zero, suc, ◌≡◌, ◌≢◌, ◌⊎◌, refl, sym, true, false, none, some, Option, List, [], ◌∷◌, get_or,
  replicate, length-replicate, arith, All, ==-of_ne,
}
use computer_science_project.Kernel.Pipe.{
  PipeCall, call_write, call_read, call_close as call_shut, fresh_pipe, pipe_size, replies,
}
use computer_science_project.Kernel.Pipe.Fifo.{fifo_replies}
use computer_science_project.Kernel.Pipe.Refine.{view, replies-fifo_replies, fresh_pipe-IsPipe}
use computer_science_project.Kernel.Files.{no_file}
use computer_science_project.Kernel.Files.Processes.{
  System, SysCall, call_pipe, call_fork, call_close, call_exit, running, unused, run_calls,
}
use computer_science_project.Kernel.Files.Processes.Slots.{IsSystem, total}
use computer_science_project.Kernel.Files.Processes.Loops.{IsClosed}
use computer_science_project.Kernel.Files.Processes.Keeping.{run_calls-IsSystem}
use computer_science_project.Kernel.Buffers.{Buf, no_buf, Cache, is_block, recyclable, bget}
use computer_science_project.Kernel.Buffers.Get.{IsUnique, IsGot, bget_lem}
use computer_science_project.Kernel.Buffers.Clean.{IsQuiet}
use computer_science_project.Kernel.Buffers.Sequence.{
  BlockCall, call_read as block_read, call_write as block_write, reads, plain_reads,
  reads-plain_reads,
}

abbrev pipe_calls : List PipeCall
pipe_calls =
    call_write false (1 ∷ 2 ∷ 3 ∷ []) ∷ call_read false 2 ∷ call_shut true ∷ call_read false 5 ∷ []

abbrev zero_page : List ℕ
zero_page = replicate pipe_size 0

replies-fifo_replies_example :
    replies pipe_calls (fresh_pipe zero_page)
    ≡ fifo_replies pipe_calls (view (fresh_pipe zero_page))
replies-fifo_replies_example =
    replies-fifo_replies pipe_calls (fresh_pipe zero_page)
      (fresh_pipe-IsPipe zero_page (length-replicate {A = ℕ} pipe_size 0))

abbrev shut : List (Option ℕ)
shut = replicate 16 none

abbrev booted : System
booted = record {
  files = no_file ∷ no_file ∷ [];
  slots = (record { life = running; ofile = shut }) ∷ (record { life = unused; ofile = shut }) ∷ [];
  closed = [];
}

no_refs : (f : ℕ) → (get_or booted.files f no_file).ref ≡ total f booted.slots
no_refs zero = refl
no_refs (suc zero) = refl
no_refs (suc (suc f)) = refl

IsClosed-replicate : (n : ℕ) → IsClosed (replicate n none)
IsClosed-replicate zero = tt
IsClosed-replicate (suc n) = (refl, IsClosed-replicate n)

shut-IsClosed : IsClosed shut
shut-IsClosed = IsClosed-replicate 16

booted-IsSystem : IsSystem booted
booted-IsSystem = record {
  refs = no_refs;
  slots = ((refl, λ h. shut-IsClosed), ((refl, λ h. shut-IsClosed), tt));
}

one_not_zero : ◌≢◌ {A = ℕ} 1 0
one_not_zero e = absurd (omega arith)

abbrev sys_calls : List (ℕ × SysCall)
sys_calls = (0, call_pipe (some 7)) ∷ (0, call_fork true) ∷ (1, call_close 0) ∷ (1, call_exit) ∷ []

run_calls-IsSystem_example :
    (after : System) × (run_calls 0 sys_calls booted ≡ some after) × IsSystem after
run_calls-IsSystem_example =
    run_calls-IsSystem 0 sys_calls booted booted-IsSystem (tt, (tt, (tt, (one_not_zero, tt))))

abbrev two_bufs : List Buf
two_bufs = no_buf ∷ no_buf ∷ []

two_bufs-IsUnique : IsUnique two_bufs
two_bufs-IsUnique dev blockno ne = rw (==-of_ne 0 dev (λ e. ne (sym e))) (omega arith)

bget_lem_example :
    ((bget 1 3 two_bufs ≡ none)
      × All (λ b. is_block 1 3 b ≡ false) two_bufs
      × All (λ b. recyclable b ≡ false) two_bufs)
    ⊎ ((i : ℕ) × (after : List Buf) × (bget 1 3 two_bufs ≡ some (i, after))
        × IsGot 1 3 two_bufs i after)
bget_lem_example = bget_lem 1 3 two_bufs two_bufs-IsUnique

abbrev cold : Cache
cold = record { bufs = two_bufs; disk = record { disksize = 10; block = λ n. n ∷ [] } }

cold-IsQuiet : IsQuiet cold
cold-IsQuiet = record {
  some_buf = omega arith;
  clean =
      ((refl, refl, λ e v. absurd (omega arith)), ((refl, refl, λ e v. absurd (omega arith)), tt));
  unique = two_bufs-IsUnique;
}

abbrev block_calls : List BlockCall
block_calls = block_write 3 (7 ∷ []) ∷ block_read 3 ∷ block_read 5 ∷ []

reads-plain_reads_example : reads block_calls cold ≡ some (plain_reads block_calls cold.disk)
reads-plain_reads_example =
    reads-plain_reads block_calls cold cold-IsQuiet (omega arith, (omega arith, (omega arith, tt)))
