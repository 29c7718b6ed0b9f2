-- ===== src/Examples/Returning.antt =====
-- The theorems on the entry to a trap and the return from it, for a task whose block is at 1000 and
-- whose kernel stack pointer is 5000.
use ucas_oslab_project.Common.{
  ◌+◌, ◌∷◌, Option, List, [], ℕ, ◌*◌, ◌≡◌, refl, inl, ◌==◌, if◌then◌else◌, some, arith,
}
use ucas_oslab_project.LinkedList.{Ptr, update}
use ucas_oslab_project.Sched.{load_context}
use ucas_oslab_project.Syscalls.{handle_syscall, sys_move_cursor, ecall_of, invoke_syscall}
use ucas_oslab_project.Syscalls.Route.{table, answered}
use ucas_oslab_project.Threads.{do_thread_create}
use ucas_oslab_project.Trap.{
  Hart, save_context, sd_all, Labels, exception_handler_entry, ret_from_exception,
}
use ucas_oslab_project.Trap.Return.{Resumed, exception_handler_entry-round}
use ucas_oslab_project.Trap.Calls.{frame_at, handle_syscall-round}
use ucas_oslab_project.Trap.Start.{Started, Switched, ret_from_exception-thread}
use ucas_oslab_project.Interrupts
use ucas_oslab_project.Interrupts.{interrupt_helper}
use ucas_oslab_project.Interrupts.Dispatch.{irq_table, exc_table}
use ucas_oslab_project.Interrupts.Other.{Literals, handle_other}
use ucas_oslab_project.Interrupts.Other.Report.{
  Call, print_all, report, registers, handle_other-shows,
}
use ucas_oslab_project.Examples.States.{machine, alone}
use ucas_oslab_project.Examples.Threading.{single-IsRing}
use ucas_oslab_project.Examples.Traps.{counted}

abbrev labels : Labels
labels = record { ret_from_exception = 0x50200100; interrupt_helper = 0x50203000 }

-- The program has `r * 100` in register `r`, but for tp.
abbrev numbered : ℕ → ℕ
numbered r = if r == 4 then 1000 else r * 100

abbrev hart : (ℕ → ℕ) → Hart
hart x = record {
  x = x;
  mem = λ q. if q == 1000 then 5000 else q;
  pc = 0x50203000;
  sscratch = 0;
  sepc = 0x52000040;
  sstatus = 0x20;
  stval = 0;
  scause = 8;
}

abbrev program : Hart
program = hart numbered

abbrev entered : Hart
entered = exception_handler_entry labels program

exception_handler_entry-round_example :
    (entered.pc ≡ 0x50203000)
    × (entered.x 1 ≡ 0x50200100)
    × (entered.x 10 ≡ 5000)
    × (entered.x 11 ≡ 0)
    × (entered.x 12 ≡ 8)
    × Resumed numbered 0x52000040 0x20 5000 (ret_from_exception entered)
unfolding exception_handler_entry save_context sd_all
exception_handler_entry-round_example =
    exception_handler_entry-round labels program entered (inl (omega arith)) refl (λ i lt. refl)

-- The stub asks for the cursor at (5, 7).
abbrev asking : Hart
asking = hart (ecall_of (sys_move_cursor 5 7) numbered)

abbrev asked_frame : ℕ → ℕ
asked_frame = frame_at (exception_handler_entry labels asking).mem 5000

-- The kernel has come back with 12 in a0 and the address moved on.
abbrev served : Hart
served = record (exception_handler_entry labels asking) {
  mem = λ q.
      if q == 5080
      then 12
      else if q == 5264
      then 0x52000044
      else (exception_handler_entry labels asking).mem q;
}

handle_syscall-round_example :
    (interrupt_helper irq_table exc_table ((exception_handler_entry labels asking).x 12)
      ≡ some Interrupts.handle_syscall)
    × (handle_syscall counted table asked_frame 0 ≡ some (answered counted asked_frame 12, 1))
    × Resumed
        (update (ecall_of (sys_move_cursor 5 7) numbered) 10 12)
        0x52000044
        0x20
        5000
        (ret_from_exception served)
unfolding exception_handler_entry save_context sd_all ecall_of invoke_syscall
handle_syscall-round_example =
    handle_syscall-round counted labels (sys_move_cursor 5 7) numbered asking served 0 1 12
      (λ r lo hi. refl) refl refl (inl (omega arith)) refl (λ i lt. ground arith)

abbrev new_thread : Hart
new_thread =
    let k = do_thread_create machine 0x52000000 1 2 3 4 alone in
    record program { x = update numbered 2 (load_context 12216 k).cpu.sp; mem = k.stack }

new_thread-Switched : Switched (do_thread_create machine 0x52000000 1 2 3 4 alone) 12216 new_thread
new_thread-Switched = record { sp = refl; stack = λ i lt. refl }

ret_from_exception-thread_example :
    Started 0x52000000 81920 12216 1 2 3 4 (ret_from_exception new_thread)
ret_from_exception-thread_example =
    ret_from_exception-thread machine alone 0x52000000 1 2 3 4 new_thread refl (omega arith) refl
      (omega arith) single-IsRing refl refl new_thread-Switched

-- Every call of `printk` is written down, the last one first.
abbrev log : Ptr → List ℕ → List Call → Option (List Call)
log fmt va calls = some ((fmt, va) ∷ calls)

abbrev literals : Literals
literals = record {
  reg_name = λ r. 0x50210000 + 8 * r;
  reg_line = 0x50210100;
  newline = 0x50210110;
  status_line = 0x50210120;
  sepc_line = 0x50210150;
  tval_line = 0x50210160;
  panic_line = 0x50210180;
  func_name = 0x502101b0;
  file_name = 0x502101c0;
}

-- The memory holds its own addresses outside the block.
handle_other-shows_example :
    handle_other log literals (frame_at entered.mem 5000) 0 8 []
    ≡ print_all log (report literals (registers program) 0x20 5272 5280 0x52000040 0 8) []
handle_other-shows_example = handle_other-shows log literals labels program []
