-- ===== src/Trap/Calls.antt =====
-- arch/riscv/kernel/entry.S with kernel/syscall/syscall.c and tiny_libc/syscall.c: a system call,
-- from the `ecall` of its stub to the program's next instruction.
use ucas_oslab_project.Common.{ℕ, ◌+◌, ◌*◌, ◌%◌, ◌^◌, ◌≤◌, ◌<◌, ◌≡◌, ◌∙◌, Option, some, arith}
use ucas_oslab_project.LinkedList.{Ptr, update}
use ucas_oslab_project.Syscalls.{Service, handle_syscall, Stub, ecall_of}
use ucas_oslab_project.Syscalls.Route.{table, asked, answered, handle_syscall-set}
use ucas_oslab_project.Interrupts
use ucas_oslab_project.Interrupts.{interrupt_helper}
use ucas_oslab_project.Interrupts.Dispatch.{irq_table, exc_table, interrupt_helper-routes}
use ucas_oslab_project.Trap.{Hart, sp, tp, ret_from_exception, Labels, exception_handler_entry}
use ucas_oslab_project.Trap.Return.{
  Apart, kernel_sp, HasFrame, Resumed, Resumed-at, exception_handler_entry-pass,
  exception_handler_entry-HasFrame,
}

-- The array `regs` of the frame at `k`.
abbrev pub frame_at : (mem : Ptr → ℕ) (k : Ptr) → ℕ → ℕ
frame_at mem k i = mem (k + 8 * i)

-- For a program that has set its registers as a stub does and traps with cause 8, with a block
-- that does not overlap its trap frame: interrupt_helper, with the tables of init_exception and
-- the cause that the entry to the trap passes on, chooses handle_syscall; if the kernel function
-- that the stub is for returns a result for the stub's arguments, handle_syscall on the frame that
-- the entry has left calls it and stores the result; and if the handler comes back with its stack
-- pointer and with these words in the frame, ret_from_exception goes on behind the ecall (modulo
-- 2^64) with the result in a0, every other register and sstatus as they were, and the kernel stack
-- pointer in the block.
pub handle_syscall-round :
    {S : Type 0} (call : Service → (a0 a1 a2 a3 a4 : ℕ) → S → Option (ℕ × S)) (l : Labels)
    (stub : Stub) (before : ℕ → ℕ) (h h' : Hart) (s s' : S) (result : ℕ)
    → let frame = frame_at (exception_handler_entry l h).mem (kernel_sp h) in
      ((r : ℕ) → 1 ≤ r → r < 32 → h.x r ≡ ecall_of stub before r)
      → h.scause ≡ 8
      → asked call stub s ≡ some (result, s')
      → Apart (h.x tp) (kernel_sp h)
      → h'.x sp ≡ kernel_sp h
      → ((i : ℕ) → i < 36 → frame_at h'.mem (kernel_sp h) i ≡ answered call frame result i)
      → (interrupt_helper irq_table exc_table ((exception_handler_entry l h).x 12)
          ≡ some Interrupts.handle_syscall)
        × (handle_syscall call table frame s ≡ some (answered call frame result, s'))
        × Resumed
            (update h.x 10 result)
            ((h.sepc + 4) % 2 ^ 64)
            h.sstatus
            (kernel_sp h)
            (ret_from_exception h')
handle_syscall-round call l stub before h h' s s' result set cause does apart same kept =
    let f = exception_handler_entry-HasFrame h l in
    let frame = frame_at (exception_handler_entry l h).mem (kernel_sp h) in
    let g : HasFrame h'.mem (kernel_sp h) (update h.x 10 result) ((h.sepc + 4) % 2 ^ 64) h.sstatus =
      record {
        reg = λ r lo hi. kept r (omega arith) ∙ ground (arith, f.reg r lo hi);
        sepc = kept 33 (omega arith) ∙ ground (arith, f.sepc);
        sstatus = kept 32 (omega arith) ∙ f.sstatus;
      } in
    let pass = exception_handler_entry-pass h l in
    (
      (interrupt_helper-routes _).0.1 (pass.4 ∙ cause),
      handle_syscall-set call stub before frame s s' result (λ r lo hi. f.reg r lo hi ∙ set r lo hi)
          does,
      Resumed-at h' g same apart,
    )
