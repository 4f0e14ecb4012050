-- ===== src/Lib.antt =====
-- Parts of an operating systems project: the system calls that it adds to the xv6 kernel
-- (Groupname_Project1_xv6CustomizeSystemCalls/xv6-riscv/kernel) and its CPU scheduling simulators
-- (Groupname_Project2_2).
--
-- Prelude holds the shared vocabulary: Boolean tests on numbers, lists with reads and writes by
-- index, the integers (C's int, without overflow), the bits of a machine word, and sums over lists.
--
-- Kernel. A system call that holds a lock from its first test to its return is one function from
-- state to state; where it sleeps, it is several steps.
--   Cache: kernel/bio.c, the cache of disk blocks. Ring is about the links of its list, Search about the loops
--     of bget, Inv about the whole cache, Calls about bget, and Sound and Coherent about processes that get, use
--     and release buffers in any order.
--   Namex: skipelem and namex (kernel/fs.c), with dirlookup as a parameter. Names is about the names in a path,
--     Lookup about namex.
--   Page: kernel/kalloc.c and the page table entries of kernel/riscv.h. Memory is its free list and the
--     contents of its pages.
--   Vm: kernel/vm.c. walk and walkaddr stand in Vm itself; Region has mappages, uvmunmap, uvmalloc and
--     uvmdealloc, Space uvmcopy, uvmshare and uvmfree, User vmfault, copyin, copyout and copyinstr. Own says what
--     each page is for and what a process sees, Grow what a walk that allocates does, Store what an entry
--     that is set does, and Memory, Place and Zeros what a new page of zeros does, to all address spaces. Fault
--     is about a page that is found or made, Bytes, Copyin, Copyout, Rounds and RoundTrip about the copies, Boot
--     about kinit. `group` names the address spaces that may share pages, those of the threads of a process.
--   UserMemory: copyin and copyout as an interface for the system calls; FlatMemory fills it for examples.
--   Proc: struct proc and struct trapframe (kernel/proc.h), as far as signals, sleeping, fork and exit use
--     them.
--   MsgQueue: msgq_init, sys_msgq_send, sys_msgq_recv (kernel/sysproc.c). Inv has the invariant of one
--     queue, Fifo the abstract bounded queue and what a call does to it, Table the four queues with the
--     lazy initialisation, Calls the sequences of calls.
--   Signal: sys_signal and sys_sigreturn (kernel/sysproc.c), kkill (kernel/proc.c) and the delivery loop
--     of usertrap (kernel/trap.c). Mask models the 64 pending bits with the sign extension of 1 << 31,
--     Deliver the loop, Interrupt the life of a signal, Kill the sender's side.
--   Log: begin_op, end_op, log_write, commit and recover_from_log (kernel/log.c), with the writes to the
--     disk as a list, of which a crash lets a first part through. Writes and Crash say what a list of
--     writes does to a disk, Commit puts them together, Absorb is about one
--     log_write, Space about the log's room for all calls.
--   Pipe: pipewrite, piperead and pipeclose (kernel/pipe.c). Ring is about the bytes between the two
--     wrapping counters, Refine about the abstract queue.
--   Fork: allocproc, kfork, kclone and get_psinfo (kernel/proc.c). Child has what they do in every case, Pids
--     what a table with sound process IDs is, Keep what exits and wakeups keep of it, Reach all tables
--     that the steps of Fork and Family lead to.
--   Strings: kernel/string.c; Move is about memset and memmove, Copy about memcmp and safestrcpy.
--   Family: reparent, kexit, freeproc, kwait and kjoin (kernel/proc.c) on the process table. Scan is about
--     a round of kwait or kjoin, Exit about kexit. Open files and pages are left out.
--   Semaphore: sys_sem_wait and sys_sem_post (kernel/sysproc.c) with sleep and wakeup (kernel/proc.c), as
--     a step relation in which any process moves next; Inv has the invariant, Safety what follows.
--
-- Sched. One module for each simulator; printing is left out and rand() is a sequence of numbers.
--   Lottery: shajith/src/lottery.c. Draw is about one draw, Round and Total about whole runs, Overrun
--     about input that the chart has no room for.
--   Smp: what the simulators of several CPUs share. For those of Bhanu: the choice of the best process
--     and the turn of a CPU, over a key of the process. For those of Aryan and Ayush, which only fill idle
--     CPUs: Fill, Tick and Policy, the loop for any policy, and Progress, Timely and Fresh, how it ends.
--     Consistent has the agreement between CPUs and processes, Turn what one turn keeps, Assign all turns
--     of a cycle.
--   Edf: Bhanu/src/edf.c on top of Smp, with deadlines as keys; Global has its schedule.
--   Mlfq: Bhanu/src/mlfq.c on top of Smp, with levels as keys. Boost is the periodic boost, Inv what every
--     step keeps, Levels the schedule.
--   Aryan: run_custom_rr and run_edf (Aryan/src/algorithms.c), each a policy of Smp.
--   Ayush: run_lottery (Ayush/src/algorithms.c), a policy of Smp.
--   Vijay: lottery_scheduling and rms_scheduling (Vijay/algorithms.c).
--
-- User. Grep: user/grep.c. Matches has the meaning of its patterns, Lines what the loop over a file writes,
--   with read as a parameter.
--
-- A round of copyin, copyout and copyinstr moves a byte or more, so that the number of bytes is fuel enough; a
-- page table has three levels. A round of namex takes a byte or more off the path.
--
-- Loops with a known number of rounds are recursions on that number. The while loops of the
-- simulators run on fuel; for shajith's lottery the sum of the bursts and one more is enough, and 501
-- where the chart overflows, for those
-- of Aryan and Ayush the last arrival, the sum of the bursts and one more, and for grep one read more than
-- the file has bytes. What is said of Bhanu's EDF and MLFQ is about every cycle of a run, as many as there
-- are, and needs no fuel.
--
-- Not modelled: the rest of the kernel (its own page table, the rest of the file system, devices, boot), the
-- other user programs and the other simulators; run_mlfq of Aryan reads its array at -1, which C leaves
-- undefined. Deadlocks and the order in which the scheduler runs processes are outside the model of the system
-- calls. What is said of copyin and copyout is about a memory that nobody else changes meanwhile.
pub mod Kernel
pub mod Prelude
pub mod Sched
pub mod User
