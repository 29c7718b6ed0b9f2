-- ===== src/Trap/Start.antt =====
-- arch/riscv/kernel/entry.S, from the frames that init/main.c and kernel/sched/thread.c lay out: the
-- first return to a program.
use ucas_oslab_project.Common.{
  ℕ, ◌+◌, ◌*◌, ◌%◌, ◌^◌, ◌≤◌, ◌<◌, ◌≡◌, refl, ap, ◌∙◌, inr, false, List, ◌∷◌, arith, has,
}
use ucas_oslab_project.LinkedList.{Ptr}
use ucas_oslab_project.LinkedList.Chain.{IsRing}
use ucas_oslab_project.Kernel.{Machine, Kernel, list_of, thread_group_of}
use ucas_oslab_project.Sched.{load_context}
use ucas_oslab_project.Threads.{do_thread_create, sr_spie}
use ucas_oslab_project.Threads.Create.{Starts, do_thread_create-Created}
use ucas_oslab_project.Trap.{Hart, sp, slot, ret_from_exception}
use ucas_oslab_project.Trap.Return.{HasFrame, ret_from_exception-Resumed}

-- The words of the frame at the stack pointer, by register.
abbrev pub frame_regs : Hart → ℕ → ℕ
frame_regs h r = h.mem (h.x sp + slot r)

pub frame_regs-HasFrame :
    (h : Hart)
    → HasFrame h.mem (h.x sp) (frame_regs h) (h.mem (h.x sp + 264)) (h.mem (h.x sp + 256))
frame_regs-HasFrame h = record { reg = λ r lo hi. refl; sepc = refl; sstatus = refl }

-- The processor when `switch_to` has loaded `tcb`.
pub record Switched (k : Kernel) (tcb : Ptr) (h : Hart) : Type 0 where
  pub sp : h.x 2 ≡ (load_context tcb k).cpu.sp
  pub stack : (i : ℕ) → i < 36 → h.mem (h.x 2 + 8 * i) ≡ k.stack (h.x 2 + 8 * i)

-- A program that runs for the first time.
pub record Started (entry_point user_stack block a0 a1 a2 a3 : ℕ) (h : Hart) : Type 0 where
  pub pc : h.pc ≡ entry_point
  pub sp : h.x 2 ≡ user_stack
  pub tp : h.x 4 ≡ block
  pub arg0 : h.x 10 ≡ a0
  pub arg1 : h.x 11 ≡ a1
  pub arg2 : h.x 12 ≡ a2
  pub arg3 : h.x 13 ≡ a3
  pub sstatus : h.sstatus ≡ sr_spie

Starts-Started :
    {m : Machine} (k : Kernel) (tcb : Ptr) {user_stack entry_point a0 a1 a2 a3 : ℕ} (h : Hart)
    → Starts m k tcb user_stack entry_point a0 a1 a2 a3
    → Switched k tcb h
    → Started entry_point user_stack tcb a0 a1 a2 a3 (ret_from_exception h)
Starts-Started k tcb h s w =
    let t = w.stack 4 (omega arith) ∙ (ap (λ q. k.stack (q + 32)) w.sp ∙ s.tp) in
    let above : h.x sp + 288 ≡ tcb = ap (λ q. q + 288) w.sp ∙ s.frame in
    let back =
      ret_from_exception-Resumed h (frame_regs h) (h.mem (h.x sp + 264)) (h.mem (h.x sp + 256))
        (frame_regs-HasFrame h) (inr (omega (arith, t, above))) in
    let read : (r : ℕ)
        → 1 ≤ r
        → r < 32
        → (ret_from_exception h).x r ≡ k.stack ((load_context tcb k).cpu.sp + 8 * r) =
      λ r lo hi.
        back.reg r lo hi ∙ (w.stack r (omega arith) ∙ ap (λ q. k.stack (q + 8 * r)) w.sp) in
    record {
      pc = back.pc ∙ (w.stack 33 (omega arith) ∙ (ap (λ q. k.stack (q + 264)) w.sp ∙ s.sepc));
      sp = read 2 (omega arith) (omega arith) ∙ s.sp;
      tp = read 4 (omega arith) (omega arith) ∙ s.tp;
      arg0 = read 10 (omega arith) (omega arith) ∙ s.arg0;
      arg1 = read 11 (omega arith) (omega arith) ∙ s.arg1;
      arg2 = read 12 (omega arith) (omega arith) ∙ s.arg2;
      arg3 = read 13 (omega arith) (omega arith) ∙ s.arg3;
      sstatus =
          back.sstatus
          ∙ (w.stack 32 (omega arith) ∙ (ap (λ q. k.stack (q + 256)) w.sp ∙ s.sstatus));
    }

-- With the two allocators at a page and room left, and the new block's nodes not on the caller's
-- group's ring: when switch_to has loaded the thread that do_thread_create made,
-- ret_from_exception starts it at its function, in user mode with interrupts to come on, on its
-- own user stack, with its block in tp and its four arguments in a0 to a3.
pub ret_from_exception-thread :
    (m : Machine) (k : Kernel) {xs : List Ptr} (func a0 a1 a2 a3 : ℕ) (h : Hart)
    → k.kern_mem_curr % 4096 ≡ 0
    → k.kern_mem_curr + 8192 ≤ 2 ^ 64
    → k.user_mem_curr % 4096 ≡ 0
    → k.user_mem_curr + 69632 ≤ 2 ^ 64
    → IsRing k.links (thread_group_of k.current_running) xs
    → let tcb = k.kern_mem_curr + 4024 in
      let group = thread_group_of k.current_running ∷ xs in
      has (thread_group_of tcb) group ≡ false
      → has (list_of tcb) group ≡ false
      → Switched (do_thread_create m func a0 a1 a2 a3 k) tcb h
      → Started func (k.user_mem_curr + 65536) tcb a0 a1 a2 a3 (ret_from_exception h)
ret_from_exception-thread m k func a0 a1 a2 a3 h kern_page kern_room user_page user_room ring group
      list switched =
    let c =
      do_thread_create-Created m k func a0 a1 a2 a3 kern_page kern_room user_page user_room ring
        group list in
    Starts-Started _ (k.kern_mem_curr + 4024) h c.starts switched
