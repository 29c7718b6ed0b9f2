-- ===== src/Lib.antt =====
-- The kernel of the UCAS operating-system laboratory, project 2: a small preemptive kernel for
-- RISC-V with tasks, sleeping, mutexes and a screen.
--
-- Common has shared names, tests on numbers, integers and lists. LinkedList models
-- kernel/list/list.c: the fields `next` and `prev` are two functions of an address, and each
-- operation is the sequence of its assignments; its children relate the memory to sequences of
-- nodes (Chain: the predicate, Insert: what linking a node in has in common, then one file for each
-- family of operations). Kernel has the state: task blocks by address, the locks, the clock, the
-- saved registers and the words of the kernel stacks. Sched models kernel/sched/sched.c,
-- kernel/sched/time.c and `switch_to` of arch/riscv/kernel/entry.S. Locking models
-- kernel/locking/lock.c and `atomic_swap` of arch/riscv/include/atomic.h. Memory models the page
-- allocators of kernel/mm/mm.c and ROUND of include/os/mm.h. Threads models kernel/sched/thread.c:
-- the stores into a new kernel stack, a new thread's place in its group, and the turn from one
-- thread to the next. Interrupts models kernel/irq/irq.c: the two tables of handlers, the dispatch,
-- the timer interrupt, and (Interrupts/Other) the handler of the other traps, which prints the
-- frame and halts. Syscalls models kernel/syscall/syscall.c, the system-call table of init/main.c
-- and the stubs of tiny_libc/syscall.c, for any behaviour of the functions that the table points
-- to. Strings models libs/string.c over a memory of bytes, and TinyLibc the same text in
-- tiny_libc/string.c; their loops over a text have fuel, and `none` is a loop that outlasts it.
-- Screen models drivers/screen.c: a terminal (Screen/Terminal) obeys the commands that go to the
-- serial port, and Screen/Lines lays out a text. Format models mini_itoa of libs/printk.c, and
-- Format/Output its mini_vsnprintf, for any function that prints a number as Format/Output/Pieces
-- asks; Printk models the rest of the file, and Printf tiny_libc/printf.c with its own mini_itoa. A
-- value below 2^64 has at most 64 digits, so the fuel of 64 in mini_itoa is enough; that of the
-- loops over a format or a text is a parameter. Loader models kernel/loader/loader.c; the
-- firmware's read of sectors is a parameter. Boot models the set-up of the first tasks by init_pcb
-- of init/main.c (Boot/Task has one round of its loop, Boot/Tasks the loop, Boot/Quiet what the
-- loop leaves as it is, Boot/First the scheduler's first turn behind it, and Boot/Launch the way to
-- the first task's first instruction), and Bios the calls of the firmware in
-- arch/riscv/bios/common.c, with the jump table of init/main.c and include/os/kernel.h that the
-- kernel makes them through; the firmware's entry point is a parameter. CreateImage models
-- tools/createimage.c, which lays out the image on the host: its command line (CreateImage/Args),
-- the segments, the table of the tasks, and the image as the kernel's loader reads it. Trap models
-- the entry to a trap and the return from it in arch/riscv/kernel/entry.S, by the registers of a
-- processor and a memory of words: Trap/Frame and Trap/Return relate them to the frame, Trap/Calls
-- to a system call from its stub to the next instruction, and Trap/Start to the first return to a
-- thread. Examples has concrete states.
--
-- A task block's node `list` stands 16 bytes above the block, so list_entry subtracts 16. The
-- addresses of the queues, and the value that each read of the time counter gives, are fields of
-- the record Machine. A walk along a queue has Machine's `fuel` for its number of rounds; more fuel
-- than there are sleepers is enough. The result `none` is a walk that outlasts its fuel, or an
-- access outside the array of locks. Numbers are below 2 ^ 64 and wrap where the source adds.
--
-- Kernel code runs with interrupts off, so its operations are single steps. The stacks are modelled
-- as words apart from the task blocks. A number of pages is one whose size in bytes fits an int.
--
-- Not modelled: the setup of the trap vector in arch/riscv/kernel/trap.S and the switches of
-- interrupts in entry.S, the boot code, the function main of init/main.c, the user programs under
-- test; tools/deflate is a copy of another project; the firmware's calls are parameters or results.
pub mod Common
pub mod LinkedList
pub mod Kernel
pub mod Sched
pub mod Locking
pub mod Memory
pub mod Threads
pub mod Interrupts
pub mod Syscalls
pub mod Loader
pub mod Strings
pub mod TinyLibc
pub mod Screen
pub mod Format
pub mod Printk
pub mod Printf
pub mod Bios
pub mod Boot
pub mod CreateImage
pub mod Trap
mod Examples
