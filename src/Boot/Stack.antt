-- ===== src/Boot/Stack.antt =====
-- init/main.c: the words that `init_pcb_stack` leaves.
use ucas_oslab_project.Common.{ℕ, ◌+◌, ◌^◌, ◌≤◌, ◌<◌, ◌≡◌, refl, ◌==◌, ◌⊎◌, false, arith}
use ucas_oslab_project.LinkedList.{Ptr}
use ucas_oslab_project.Kernel.{Machine, Kernel}
use ucas_oslab_project.Threads.{below, store_switchto, sr_spie}
use ucas_oslab_project.Boot.{init_pcb_stack}

-- What the round leaves of the words and of the other tasks' blocks.
pub record Stacked (m : Machine) (base user_stack entry : ℕ) (p : Ptr) (k k' : Kernel)
    : Type 0 where
  pub kernel_sp : (k'.pcb p).kernel_sp ≡ base
  pub user_sp : (k'.pcb p).user_sp ≡ user_stack
  pub pid : (k'.pcb p).pid ≡ (k.pcb p).pid
  pub status : (k'.pcb p).status ≡ (k.pcb p).status
  pub ra : k'.stack base ≡ m.ret_from_exception
  pub switchto_sp : k'.stack (base + 8) ≡ base
  pub frame_sp : k'.stack (base + 112 + 16) ≡ user_stack
  pub frame_tp : k'.stack (base + 112 + 32) ≡ p
  pub sepc : k'.stack (base + 112 + 264) ≡ entry
  pub sstatus : k'.stack (base + 112 + 256) ≡ sr_spie
  pub others : (q : Ptr) → (q == p) ≡ false → k'.pcb q ≡ k.pcb q
  pub cpu : k'.cpu ≡ k.cpu
  pub outside : (q : ℕ) → (q < base) ⊎ (base + 400 ≤ q) → k'.stack q ≡ k.stack q
  pub links : k'.links ≡ k.links

pub init_pcb_stack-Stacked :
    (m : Machine) (base user_stack entry : ℕ) (p : Ptr) (k : Kernel)
    → base + 400 < 2 ^ 64
    → Stacked m base user_stack entry p k (init_pcb_stack m (base + 400) user_stack entry p k)
unfolding init_pcb_stack store_switchto
init_pcb_stack-Stacked m base user_stack entry p k low =
    let e1 : below (base + 400) 288 ≡ base + 112 = omega arith in
    let e2 : below (base + 112) 112 ≡ base = omega arith in
    rw (e1, e2)
      (record {
        kernel_sp = ground arith;
        user_sp = ground arith;
        pid = ground arith;
        status = ground arith;
        ra = ground arith;
        switchto_sp = ground arith;
        frame_sp = ground arith;
        frame_tp = ground arith;
        sepc = ground arith;
        sstatus = ground arith;
        others = λ q ne. ground arith;
        cpu = refl;
        outside = λ q out. ground arith;
        links = refl;
      })
