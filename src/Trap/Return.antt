-- ===== src/Trap/Return.antt =====
-- arch/riscv/kernel/entry.S: what an interrupted program finds when its trap is over.
use mathlib.Core.Path.{subst}
use ucas_oslab_project.Common.{
  ℕ, ◌+◌, ◌*◌, ◌≤◌, ◌<◌, ◌≡◌, ◌≢◌, refl, sym, ◌∙◌, ◌⊎◌, true, false, ◌==◌, if◌then◌else◌, arith,
  has,
}
use ucas_oslab_project.LinkedList.{Ptr}
use ucas_oslab_project.Trap.{
  Hart, ra, sp, tp, t1, a0, slot, saved_regs, upper_regs, loaded_regs, ld, sd_all, ld_all,
  save_context, restore_context, ret_from_exception, Labels, exception_handler_entry,
}
use ucas_oslab_project.Trap.Frame.{Stored, sd_all-Stored, Loaded, ld_all-Loaded}

-- The words of a trap frame at `k`.
pub record HasFrame (mem : Ptr → ℕ) (k : Ptr) (x : ℕ → ℕ) (epc status : ℕ) : Type 0 where
  pub reg : (r : ℕ) → 1 ≤ r → r < 32 → mem (k + slot r) ≡ x r
  pub sepc : mem (k + 264) ≡ epc
  pub sstatus : mem (k + 256) ≡ status

upper-has : (r : ℕ) → 18 ≤ r → r < 32 → has r upper_regs ≡ true
upper-has r lo hi = ground arith

saved-has : (r : ℕ) → 1 ≤ r → r < 32 → r ≢ sp → has r saved_regs ≡ true
saved-has r lo hi ne = ground arith

saved-range : (r : ℕ) → has r saved_regs ≡ true → (1 ≤ r) × (r < 32)
saved-range r i = ground arith

loaded-has : (r : ℕ) → 1 ≤ r → r < 32 → r ≢ sp → r ≢ t1 → has r loaded_regs ≡ true
loaded-has r lo hi ne ne' = ground arith

loaded_sp : has sp loaded_regs ≡ false
loaded_sp = refl

loaded_t1 : has t1 loaded_regs ≡ false
loaded_t1 = refl

-- The stack pointer that the task's block holds.
abbrev pub kernel_sp : Hart → Ptr
kernel_sp h = h.mem (h.x tp + 0)

-- The block of a task, of which the first word is used, and its frame do not meet.
abbrev pub Apart : (block frame : Ptr) → Type 0
Apart block frame = (block + 8 ≤ frame) ⊎ (frame + 288 ≤ block)

-- A program that goes on at `epc`, with the top `frame` of its kernel stack in its block.
pub record Resumed (x : ℕ → ℕ) (epc status : ℕ) (frame : Ptr) (h : Hart) : Type 0 where
  pub reg : (r : ℕ) → 1 ≤ r → r < 32 → h.x r ≡ x r
  pub pc : h.pc ≡ epc
  pub sepc : h.sepc ≡ epc
  pub sstatus : h.sstatus ≡ status
  pub block : h.mem (x tp) ≡ frame

module _ (h : Hart) where
  entered : Hart
  entered = ld sp 0 tp (record h { sscratch = h.x sp })

  stored : Stored saved_regs entered (sd_all saved_regs entered)
  stored = sd_all-Stored saved_regs entered

  pub save_context-HasFrame : HasFrame (save_context h).mem (kernel_sp h) h.x h.sepc h.sstatus
  unfolding save_context entered
  save_context-HasFrame =
      let s = stored in
      record {
        reg = λ r lo hi. ground (arith, s.regs 2, s.slots r, s.sscratch, saved-has r lo hi);
        sepc = ground (arith, s.regs 2, s.sepc);
        sstatus = ground (arith, s.regs 2, s.sstatus);
      }

  pub save_context_sp : (save_context h).x sp ≡ kernel_sp h
  unfolding save_context entered
  save_context_sp = let s = stored in ground (arith, s.regs 2)

  -- The words of the frame that are not saved.
  pub exception_handler_entry-unsaved :
      (l : Labels) (q : Ptr)
      → (q ≡ kernel_sp h) ⊎ (kernel_sp h + 272 ≤ q)
      → (exception_handler_entry l h).mem q ≡ h.mem q
  unfolding exception_handler_entry save_context entered
  exception_handler_entry-unsaved l q at =
      let s = stored in
      let apart : (r : ℕ) → has r saved_regs ≡ true → q ≢ entered.x sp + slot r =
        λ r i e. let (lo, hi) = saved-range r i in omega arith in
      let same = s.outside q apart in ground (arith, s.regs 2, same)

  pub exception_handler_entry-pass :
      (l : Labels)
      → let h1 = exception_handler_entry l h in
        (h1.pc ≡ l.interrupt_helper)
        × (h1.x ra ≡ l.ret_from_exception)
        × (h1.x a0 ≡ kernel_sp h)
        × (h1.x 11 ≡ h.stval)
        × (h1.x 12 ≡ h.scause)
  unfolding exception_handler_entry save_context entered
  exception_handler_entry-pass l = let s = stored in (refl, refl, s.regs 2, s.stval, s.scause)

  pub exception_handler_entry-HasFrame :
      (l : Labels) → HasFrame (exception_handler_entry l h).mem (kernel_sp h) h.x h.sepc h.sstatus
  unfolding exception_handler_entry
  exception_handler_entry-HasFrame l = save_context-HasFrame

module _ (h : Hart) (x : ℕ → ℕ) (sepc sstatus : ℕ) (f : HasFrame h.mem (h.x sp) x sepc sstatus)
    (apart : Apart (x tp) (h.x sp)) where
  loaded : Loaded loaded_regs h (ld_all loaded_regs h)
  loaded = ld_all-Loaded loaded_regs h refl

  after : Hart
  after = ld_all loaded_regs h

  after_sp : after.x sp ≡ h.x sp
  unfolding after
  after_sp = loaded.regs sp

  after-reg : (r : ℕ) → 1 ≤ r → r < 32 → r ≢ sp → r ≢ t1 → after.x r ≡ x r
  unfolding after
  after-reg r lo hi n2 n6 =
      let l = loaded in let e = loaded-has r lo hi n2 n6 in l.regs r ∙ rw e (f.reg r lo hi)

  after-mem : (q : Ptr) → after.mem q ≡ h.mem q
  unfolding after
  after-mem = loaded.mem

  ret_from_exception-reg : (r : ℕ) → 1 ≤ r → r < 32 → (ret_from_exception h).x r ≡ x r
  unfolding ret_from_exception restore_context after
  ret_from_exception-reg r lo hi =
      let a4 = after-reg 4 (omega arith) (omega arith) (ground arith) (ground arith) in
      let m2 = after-mem (h.x sp + 16) in
      let m6 = after-mem (h.x sp + 48) in
      let s2 = f.reg 2 (omega arith) (omega arith) in
      let s6 = f.reg 6 (omega arith) (omega arith) in
      ground (arith, after_sp, a4, m2, m6, s2, s6, after-reg r lo hi)

  ret_from_exception-csrs :
      ((ret_from_exception h).pc ≡ sepc)
      × ((ret_from_exception h).sepc ≡ sepc)
      × ((ret_from_exception h).sstatus ≡ sstatus)
  unfolding ret_from_exception restore_context after
  ret_from_exception-csrs =
      let e1 = after-mem (h.x sp + 264) in
      let e2 = after-mem (h.x sp + 256) in ground (arith, after_sp, e1, e2, f.sepc, f.sstatus)

  ret_from_exception-mem :
      (q : Ptr) → (ret_from_exception h).mem q ≡ (if q == x tp then h.x sp else h.mem q)
  unfolding ret_from_exception restore_context after
  ret_from_exception-mem q =
      let a4 = after-reg 4 (omega arith) (omega arith) (ground arith) (ground arith) in
      let e = after-mem q in ground (arith, after_sp, a4, e)

  pub ret_from_exception-Resumed : Resumed x sepc sstatus (h.x sp) (ret_from_exception h)
  ret_from_exception-Resumed =
      let c = ret_from_exception-csrs in
      record {
        reg = ret_from_exception-reg;
        pc = c.0;
        sepc = c.1;
        sstatus = c.2;
        block = let e = ret_from_exception-mem (x tp) in ground (arith, e);
      }

-- A frame depends on the words in it only.
HasFrame-same :
    {mem mem' : Ptr → ℕ} {k : Ptr} {x : ℕ → ℕ} {epc status : ℕ}
    → HasFrame mem k x epc status
    → ((i : ℕ) → i < 36 → mem' (k + 8 * i) ≡ mem (k + 8 * i))
    → HasFrame mem' k x epc status
HasFrame-same f kept = record {
  reg = λ r lo hi. kept r (omega arith) ∙ f.reg r lo hi;
  sepc = kept 33 (omega arith) ∙ f.sepc;
  sstatus = kept 32 (omega arith) ∙ f.sstatus;
}

pub Resumed-at :
    {x : ℕ → ℕ} {epc status : ℕ} {k : Ptr} (h : Hart)
    → HasFrame h.mem k x epc status
    → h.x sp ≡ k
    → Apart (x tp) k
    → Resumed x epc status k (ret_from_exception h)
Resumed-at {x} {epc} {status} {k} h f same apart =
    subst (λ q. Resumed x epc status q (ret_from_exception h)) same
      (ret_from_exception-Resumed h x epc status
        (subst (λ q. HasFrame h.mem q x epc status) (sym same) f)
        (subst (Apart (x tp)) (sym same) apart))

-- exception_handler_entry goes on at interrupt_helper with the frame's address in a0, stval in a1,
-- scause in a2 and ret_from_exception as the return address; if a handler comes back with the
-- stack pointer that it was given and the words of the frame as they were, and the task's block
-- does not overlap the frame, ret_from_exception goes on where the program was, with all 31
-- registers and sstatus as they were at the trap, and leaves the kernel stack pointer in the
-- block.
pub exception_handler_entry-round :
    (l : Labels) (h h' : Hart)
    → Apart (h.x tp) (kernel_sp h)
    → h'.x sp ≡ kernel_sp h
    → ((i : ℕ)
        → i < 36
        → h'.mem (kernel_sp h + 8 * i) ≡ (exception_handler_entry l h).mem (kernel_sp h + 8 * i))
    → let h1 = exception_handler_entry l h in
      (h1.pc ≡ l.interrupt_helper)
      × (h1.x ra ≡ l.ret_from_exception)
      × (h1.x a0 ≡ kernel_sp h)
      × (h1.x 11 ≡ h.stval)
      × (h1.x 12 ≡ h.scause)
      × Resumed h.x h.sepc h.sstatus (kernel_sp h) (ret_from_exception h')
exception_handler_entry-round l h h' apart same kept =
    let f = HasFrame-same (exception_handler_entry-HasFrame h l) kept in
    let p = exception_handler_entry-pass h l in
    (p.0, p.1, p.2, p.3, p.4, Resumed-at h' f same apart)
