-- ===== src/Trap/Frame.antt =====
-- arch/riscv/kernel/entry.S: the registers in the frame that `SAVE_CONTEXT` leaves.
use ucas_oslab_project.Common.{
  ℕ, ◌+◌, ◌≤◌, ◌<◌, ◌≡◌, ◌≢◌, refl, ◌∙◌, true, false, if◌then◌else◌, List, [], ◌∷◌, arith, has,
}
use ucas_oslab_project.LinkedList.{Ptr}
use ucas_oslab_project.Trap.{Hart, sp, slot, upper_regs, sd, ld, sd_all, ld_all}

-- The stores into the frame at `p`, of the registers `rs`.
pub record Stored (rs : List ℕ) (h h' : Hart) : Type 0 where
  pub regs : (r : ℕ) → h'.x r ≡ h.x r
  pub slots :
      (r : ℕ) → h'.mem (h.x sp + slot r) ≡ (if has r rs then h.x r else h.mem (h.x sp + slot r))
  pub outside : (q : Ptr) → ((r : ℕ) → has r rs ≡ true → q ≢ h.x sp + slot r) → h'.mem q ≡ h.mem q
  pub sscratch : h'.sscratch ≡ h.sscratch
  pub sepc : h'.sepc ≡ h.sepc
  pub sstatus : h'.sstatus ≡ h.sstatus
  pub stval : h'.stval ≡ h.stval
  pub scause : h'.scause ≡ h.scause

pub sd_all-Stored : (rs : List ℕ) (h : Hart) → Stored rs h (sd_all rs h)
unfolding sd_all
sd_all-Stored [] h = record {
  regs = λ r. refl;
  slots = λ r. refl;
  outside = λ q apart. refl;
  sscratch = refl;
  sepc = refl;
  sstatus = refl;
  stval = refl;
  scause = refl;
}
sd_all-Stored (a ∷ rs) h =
    let s = sd_all-Stored rs (sd a (slot a) sp h) in
    record {
      regs = s.regs;
      slots = λ r. s.slots r ∙ ground arith;
      outside = λ q apart. s.outside q (λ r i. apart r (ground arith)) ∙ ground (arith, apart a);
      sscratch = s.sscratch;
      sepc = s.sepc;
      sstatus = s.sstatus;
      stval = s.stval;
      scause = s.scause;
    }

-- The loads from the frame, of the registers `rs`.
pub record Loaded (rs : List ℕ) (h h' : Hart) : Type 0 where
  pub regs : (r : ℕ) → h'.x r ≡ (if has r rs then h.mem (h.x sp + slot r) else h.x r)
  pub mem : (q : Ptr) → h'.mem q ≡ h.mem q

pub ld_all-Loaded : (rs : List ℕ) (h : Hart) → has sp rs ≡ false → Loaded rs h (ld_all rs h)
unfolding ld_all
ld_all-Loaded [] h keeps = record { regs = λ r. refl; mem = λ q. refl }
ld_all-Loaded (a ∷ rs) h keeps =
    let s = ld_all-Loaded rs (ld a (slot a) sp h) (ground arith) in
    record { regs = λ r. s.regs r ∙ ground arith; mem = s.mem }

-- Every register but x0 and sp is in the lists, but for t1 in the second.
upper-has : (r : ℕ) → 18 ≤ r → r < 32 → has r upper_regs ≡ true
upper-has r lo hi = ground arith
