-- ===== src/Lib.antt =====
-- Models and theorems for programs of this repository: the LC-2K assembler and simulators, the xv6 kernel
-- with two extensions, and a B+ tree on disk.
--
-- computer architecture/project1/assemble.c turns LC-2K assembly text into a file of decimal words;
-- project1/simulator.c loads that file and runs it an instruction at a time; project2/simulator.c runs it
-- in a five-stage pipeline. They meet at the file and at the layout of a word.
--
-- - Lc2k/Assembler: assemble.c. `read_and_parse`, `find_idx` and `is_number` are the functions of these
--   names, `first_pass` and `second_line`/`second_pass` the two loops of main, `write_out` the output loop.
--   Lc2k/Labels, FirstPass and SecondPass are about the table and the words.
-- - Lc2k/Simulator: project1/simulator.c. `convert_num`, `cvt`, `execute` (the switch of main), `step` (a
--   round), `run` (the loop) and `read_words` (the loading loop). An int is the number of its 32-bit
--   pattern, with its wrap-around; an access outside an array is the outcome `fault`, or `overrun` in the loop that loads. Lc2k/Encoding
--   relates the words of the two programs, Execution and Semantics are about rounds, Output, StoredWords and
--   Toolchain about the file between the programs.
-- - Lc2k/Pipeline: project2/simulator.c. One function per stage, `cycle` and `run`. Flow and Branch are
--   about how instructions pass.
--   The runs take fuel, one unit for each round: LC-2K programs need not halt, so no bound exists. The run
--   of project1 is what the first rounds print, for every fuel.
--
-- Operating system/file system/xv6-public adds accounts and permissions to xv6; its log is modelled with
-- them.
--
-- - Users: fs.c from `user_info` on. `Accounts` is `user_info`, `initial` and what the file /userS holds.
--   `myopen`, `login`, `logout`, `find_empty`, `add_user`, `delete_user`, `update` and `get_now` are the
--   functions of these names. Users/Rows, Login, Removal and Invariant are about how they work together.
-- - Users/Permissions: get_modeBit of fs.c, and sys_open, sys_chmod, sys_addUser and sys_deleteUser of
--   sysfile.c. What namei, create and fdalloc return is an argument. Users/Access is about what they allow.
--
-- - Log: log.c. `Disk` is what a crash leaves. `write_log`, `install_trans`, `recover_from_log` and `commit`
--   are the functions of these names, and their `_trace` lists the disk after each write. `begin_op`,
--   `end_op` and `log_write` are those of log.c; a `none` is a panic. Log/Writes, Redo and Crash are
--   about recovery after a crash, Absorb, Space and Full about the room in the log.
--
-- - Kernel/Pipe: pipe.c. A call runs up to its next sleep. Kernel/Pipe/Fifo is the queue that a pipe
--   promises, Ring and Refine are about the two.
-- - Kernel/Files: file.c, the calls on descriptors of sysfile.c (Kernel/Files/Calls), and the descriptors of all
--   processes in fork, exit and wait of proc.c (Kernel/Files/Processes). What kalloc returns is an argument.
--   Table, Counts, Pipes and the modules under Processes are about reference counts.
-- - Kernel/Buffers: bio.c, on the disk of memide.c. Places, Get, Clean, Coherence and Sequence are about the
--   cache.
-- - Kernel/Memory: string.c but strlen and the copies of strings, with stosb and stosl of x86.h, on memory as a function from
--   addresses to bytes. Moves is about what they do.
-- - Kernel/Arguments: fetchint, fetchstr, argint, argptr and argstr of syscall.c. Accepted is about the pointers that
--   they let pass.
-- - Kernel/Pages: kalloc.c, on the memory of Kernel/Memory. FreePages is about the list in memory, Stack about calls
--   one after the other.
-- - Disk: balloc, bfree and bzero of fs.c. The outer loop of balloc takes fuel, one unit more than the disk has
--   blocks, and goes on by 4096 blocks a round. Bitmap is about single bits, Scan and Blocks about blocks.
-- - Dirs: dirlookup, dirlink, skipelem and namex of fs.c, with the permissions of Users. A directory is the list of its
--   entries; references to inodes are not counted. The loop of namex takes fuel, a unit for each byte of the path and one.
--   Entries is about a directory, Paths and Walks are about paths.
--
-- Operating system/thread,scheduler/xv6-public adds threads and schedulers.
--
-- - Sched: proc.h, the data. A pointer to a process is its index in the table.
-- - Sched/Process: allocproc, fork, exit, wait, sleep, wakeup, kill, yield, setpriority and growproc of
--   proc.c. A function that gives up the processor is modelled up to its call of sched, and a loop around
--   sleep by one pass. What kalloc, copyuvm and allocuvm return is an argument.
-- - Sched/Thread: thread_create, thread_exit, thread_join, thread_kill and thread_wakeup of proc.c.
-- - Sched/Mlfq: the choice of scheduler under MLFQ_SCHED, and the clock tick of trap.c.
-- - Sched/Queue: the ring of processes, and the turns of scheduler under MULTILEVEL_SCHED.
--   Sched/Table, Waking, Birth, Burial, Joining, Choice, Quantum and Rounds are about what these do.
--
-- dbms/B+tree_development/disk_bpt is a B+ tree in a file.
--
-- - Bpt: src/bpt.c and include/bpt.h. `find_leaf`, `insert_into_leaf` and `cut` are the functions of these
--   names, `find_in_leaf` is db_find in a leaf, `split_leaf` insert_into_leaf_as up to its call for the parent.
--   find_leaf takes fuel, a unit for each level: Bpt/Search shows how much is enough. Bpt/Insertion is about
--   the leaves. A file is a function from offsets to pages.
-- - Bpt/Leaf: leaves with their whole array, where the records behind the count matter. `insert_slots`,
--   `split_slots`, `remove_entry` and `delete_entry` are insert_into_leaf, insert_into_leaf_as,
--   remove_entry_from_page and delete_entry on a leaf, `insert_leaf` is db_insert behind find_leaf. Loops, Removal,
--   Lookup and Stale under it are about them.
-- - Bpt/Pages: the file with its header. `new_page`, `usetofree` and `start_new_file` are the functions of these
--   names. Bpt/Pages/FreeList is about the free pages.
-- - Bpt/Inner: `get_left_index`, `insert_into_parent` and the insert_into functions under it. The fuel of
--   insert_into_parent is a unit for each level up to the root. Bpt/Inner/Routing is about searches.
--
-- Prelude holds what the parts share: lists, searches, 32-bit words, laws of the bit operations, text, and
-- the kernel's strncmp and strncpy.
--
-- Not modelled: device drivers, page tables, trap frames and exec of the kernel, its inodes and the contents of files;
-- of the B+ tree the merging of pages, which the deletion of a key does not reach; and the projects that
-- are not in C.
pub mod Prelude
pub mod Lc2k
pub mod Users
pub mod Sched
pub mod Log
pub mod Bpt
pub mod Kernel
pub mod Disk
pub mod Dirs
