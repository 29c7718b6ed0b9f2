-- ===== src/Sched/Switch.antt =====
-- arch/riscv/kernel/entry.S: a task that is switched to again finds its registers as it left them.
use ucas_oslab_project.Common.{
  ℕ, zero, suc, ◌+◌, ◌-◌, ◌*◌, ◌%◌, ◌^◌, ◌≤◌, ◌<◌, ◌≡◌, refl, sym, ap, ◌∙◌, ◌⊎◌, inl, false, arith,
  ◌==◌,
}
use ucas_oslab_project.LinkedList.{Ptr, update}
use ucas_oslab_project.Kernel.{Kernel, Cpu}
use ucas_oslab_project.Sched.{save_s, save_context, load_context, switch_to}

save_s-read :
    (n : ℕ) (sp : Ptr) (s : ℕ → ℕ) (mem : Ptr → ℕ) (i : ℕ)
    → i < n
    → save_s n sp s mem (sp + 16 + 8 * i) ≡ s i
unfolding save_s
save_s-read zero sp s mem i h = elim h [ ]
save_s-read (suc n) sp s mem i h = ground (arith, save_s-read n sp s mem i)

pub save_s-outside :
    (n : ℕ) (sp : Ptr) (s : ℕ → ℕ) (mem : Ptr → ℕ) (a : Ptr)
    → (a < sp + 16) ⊎ (sp + 16 + 8 * n ≤ a)
    → save_s n sp s mem a ≡ mem a
unfolding save_s
save_s-outside zero sp s mem a h = refl
save_s-outside (suc n) sp s mem a h = ground (arith, save_s-outside n sp s mem a)

-- The frame that `switch_to` leaves on the stack of the task that it takes off the processor.
abbrev pub frame_of : Kernel → Ptr
frame_of k = (k.cpu.sp + 2 ^ 64 - 112) % 2 ^ 64

-- The task's registers, as the kernel has them on the stack.
pub record Frame (k : Kernel) (a : Ptr) (cpu : Cpu) : Type 0 where
  pub at : (k.pcb a).kernel_sp + 112 ≡ cpu.sp
  pub ra : k.stack (k.pcb a).kernel_sp ≡ cpu.ra
  pub sp : k.stack ((k.pcb a).kernel_sp + 8) ≡ (k.pcb a).kernel_sp
  pub s : (i : ℕ) → i < 12 → k.stack ((k.pcb a).kernel_sp + 16 + 8 * i) ≡ cpu.s i

saved-sp : (k : Kernel) (a : Ptr) → ((save_context a k).pcb a).kernel_sp ≡ frame_of k
unfolding save_context
saved-sp k a = ground arith

-- The two words below the frame's saved registers.
abbrev pub header : Kernel → Ptr → ℕ
header k = update (update k.stack (frame_of k) k.cpu.ra) (frame_of k + 8) (frame_of k)

pub saved-stack :
    (k : Kernel) (a b : Ptr)
    → (save_context a k).stack b ≡ save_s 12 (frame_of k) k.cpu.s (header k) b
unfolding save_context
saved-stack k a b = refl

save_context-Frame :
    (k : Kernel) (a : Ptr) → 112 ≤ k.cpu.sp → k.cpu.sp < 2 ^ 64 → Frame (save_context a k) a k.cpu
save_context-Frame k a low high =
    let sp = frame_of k in
    let below = save_s-outside 12 sp k.cpu.s (header k) in
    record {
      at = omega (arith, saved-sp k a);
      ra = rw (saved-sp k a) (saved-stack k a sp ∙ below sp (inl (omega arith)) ∙ ground arith);
      sp =
          rw (saved-sp k a)
            (saved-stack k a (sp + 8) ∙ below (sp + 8) (inl (omega arith)) ∙ ground arith);
      s = λ i h.
          rw (saved-sp k a)
            (saved-stack k a (sp + 16 + 8 * i) ∙ save_s-read 12 sp k.cpu.s (header k) i h);
    }

load_context-Frame :
    (k : Kernel) (a : Ptr) {cpu : Cpu}
    → cpu.sp < 2 ^ 64
    → Frame k a cpu
    → ((load_context a k).cpu.ra ≡ cpu.ra)
      × ((load_context a k).cpu.sp ≡ cpu.sp)
      × ((i : ℕ) → i < 12 → (load_context a k).cpu.s i ≡ cpu.s i)
unfolding load_context
load_context-Frame k a high f =
    (f.ra, ground (arith, f.at, f.sp), λ i h. ground (arith, f.s i h, f.sp))

pub other_sp :
    (k : Kernel) (a b : Ptr)
    → (a == b) ≡ false
    → ((save_context b k).pcb a).kernel_sp ≡ (k.pcb a).kernel_sp
unfolding save_context
other_sp k a b ne = ground arith

-- A frame survives while another task is taken off the processor, if that task's stack is elsewhere.
Frame-save_context :
    (k : Kernel) (a b : Ptr) {cpu : Cpu}
    → (a == b) ≡ false
    → (frame_of k + 112 ≤ (k.pcb a).kernel_sp) ⊎ ((k.pcb a).kernel_sp + 112 ≤ frame_of k)
    → Frame k a cpu
    → Frame (save_context b k) a cpu
Frame-save_context k a b {cpu} ne apart f = record {
  at = rw same f.at;
  ra = rw same (spared (k.pcb a).kernel_sp (omega arith) ∙ f.ra);
  sp = rw same (spared ((k.pcb a).kernel_sp + 8) (omega arith) ∙ f.sp);
  s = λ i h. rw same (spared ((k.pcb a).kernel_sp + 16 + 8 * i) (omega arith) ∙ f.s i h);
}
  where
    same : ((save_context b k).pcb a).kernel_sp ≡ (k.pcb a).kernel_sp
    same = other_sp k a b ne

    spared :
        (q : Ptr)
        → (q < frame_of k) ⊎ (frame_of k + 112 ≤ q)
        → (save_context b k).stack q ≡ k.stack q
    spared q out =
        saved-stack k b q
        ∙ save_s-outside 12 (frame_of k) k.cpu.s (header k) q (omega arith)
        ∙ ground arith

Frame-keep :
    (k k2 : Kernel) (a : Ptr) {cpu : Cpu}
    → (k.pcb a).kernel_sp ≡ (k2.pcb a).kernel_sp
    → ((q : Ptr)
        → (k2.pcb a).kernel_sp ≤ q
        → q < (k2.pcb a).kernel_sp + 112
        → k2.stack q ≡ k.stack q)
    → Frame k a cpu
    → Frame k2 a cpu
Frame-keep k k2 a kept same f = record {
  at = omega (arith, f.at);
  ra = same base (omega arith) (omega arith) ∙ ap k.stack (sym kept) ∙ f.ra;
  sp =
      same (base + 8) (omega arith) (omega arith)
      ∙ ap (λ q. k.stack (q + 8)) (sym kept)
      ∙ f.sp
      ∙ kept;
  s = λ i h.
      same (base + 16 + 8 * i) (omega arith) (omega arith)
      ∙ ap (λ q. k.stack (q + 16 + 8 * i)) (sym kept)
      ∙ f.s i h;
}
  where
    base : Ptr
    base = (k2.pcb a).kernel_sp

-- A task that switch_to takes off the processor and that another task, on another stack, later
-- switches back to finds its return address, stack pointer and s0 to s11 as they were, if its
-- frame and its saved stack pointer were left alone.
pub switch_to_back :
    (a b c : Ptr) (k k2 : Kernel)
    → 112 ≤ k.cpu.sp
    → k.cpu.sp < 2 ^ 64
    → (a == b) ≡ false
    → (((switch_to a c k).pcb a).kernel_sp ≡ (k2.pcb a).kernel_sp)
    → ((q : Ptr)
        → (k2.pcb a).kernel_sp ≤ q
        → q < (k2.pcb a).kernel_sp + 112
        → k2.stack q ≡ (switch_to a c k).stack q)
    → (frame_of k2 + 112 ≤ (k2.pcb a).kernel_sp) ⊎ ((k2.pcb a).kernel_sp + 112 ≤ frame_of k2)
    → ((switch_to b a k2).cpu.ra ≡ k.cpu.ra)
      × ((switch_to b a k2).cpu.sp ≡ k.cpu.sp)
      × ((i : ℕ) → i < 12 → (switch_to b a k2).cpu.s i ≡ k.cpu.s i)
unfolding switch_to load_context
switch_to_back a b c k k2 low high ne kept same apart =
    load_context-Frame (save_context b k2) a high (
      Frame-save_context k2 a b ne apart
        (Frame-keep (save_context a k) k2 a kept same (save_context-Frame k a low high)))
