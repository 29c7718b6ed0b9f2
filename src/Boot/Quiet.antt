-- ===== src/Boot/Quiet.antt =====
-- init/main.c: what `init_pcb` leaves as it is.
use mathlib.Core.Path.{subst}
use ucas_oslab_project.Common.{
  ℕ, suc, ◌+◌, ◌*◌, ◌%◌, ◌^◌, ◌≤◌, ◌<◌, ◌≡◌, refl, ap, ◌∙◌, ◌==◌, ◌⊎◌, false, has, some, List, [],
  ◌∷◌, arith, length,
}
use ucas_oslab_project.LinkedList.Chain.{IsRing, IsRing-frame}
use ucas_oslab_project.Kernel.{Machine, Kernel}
use ucas_oslab_project.Strings.{Mem}
use ucas_oslab_project.Strings.Build.{byte_at}
use ucas_oslab_project.Loader.{Disk}
use ucas_oslab_project.Boot.{Globals, init_task, init_tasks}
use ucas_oslab_project.Boot.Task.{
  Before, nodes, nodes-has, init_task-SameOutside, init_task-others, init_task-cpu,
}
use ucas_oslab_project.LinkedList.{Ptr}
use ucas_oslab_project.Kernel.{list_of, thread_group_of}
use ucas_oslab_project.Boot.{pcb_at}
use ucas_oslab_project.Boot.Tasks.{Loads, Ready, init_task-Ready, no_task-Ready, init_tasks-keep}

-- What the rounds leave alone: a ring apart from the blocks, a block apart from them, the registers.
pub record Quiet (head other : Ptr) (k0 k : Kernel) : Type 0 where
  pub ring : IsRing k.links head []
  pub block : k.pcb other ≡ k0.pcb other
  pub cpu : k.cpu ≡ k0.cpu

-- An address outside the array `pcb`.
abbrev pub OutsidePcb : Globals → Ptr → Type 0
OutsidePcb g q = (q < g.pcb) ⊎ (g.pcb + 72 * 16 ≤ q)

module _ (m : Machine) (g : Globals) (head other : Ptr) (k0 : Kernel)
    (ready_out : OutsidePcb g m.ready_queue) (head_out : OutsidePcb g head)
    (head_ready : (head == m.ready_queue) ≡ false) (other_out : OutsidePcb g other)
    (kern user n : ℕ) (k : Kernel) (b : Before m g kern user n k) (kern_aligned : kern % 4096 ≡ 0)
    (user_aligned : user % 4096 ≡ 0) (kern_room : kern + 4096 * n + 8192 ≤ 2 ^ 64)
    (user_room : user + 65536 * n + 69632 ≤ 2 ^ 64) (few : n < 16) where
  untouched :
      has head (list_of (pcb_at g n) ∷ thread_group_of (pcb_at g n) ∷ m.ready_queue ∷ nodes g n)
      ≡ false
  untouched = ground (arith, nodes-has g n head (λ j lt e. omega arith))

  init_task-Quiet :
      (entry : ℕ) → Quiet head other k0 k → Quiet head other k0 (init_task m g n entry k)
  init_task-Quiet entry quiet = record {
    ring =
        IsRing-frame
          (list_of (pcb_at g n) ∷ thread_group_of (pcb_at g n) ∷ m.ready_queue ∷ nodes g n)
          (init_task-SameOutside m g kern user n k b kern_aligned user_aligned kern_room user_room
            few ready_out entry)
          (λ q i. ground (arith, untouched)) quiet.ring;
    block =
        init_task-others m g kern user n k b kern_aligned user_aligned kern_room user_room entry
          other (ground arith)
        ∙ quiet.block;
    cpu =
        init_task-cpu m g kern user n k b kern_aligned user_aligned kern_room user_room entry
        ∙ quiet.cpu;
  }

-- The loop from the first task on.
pub init_tasks-Quiet :
    (m : Machine) (g : Globals) (d : Disk) (rounds : ℕ) (es : List ℕ) (mem mem' : Mem) (k : Kernel)
    (head other : Ptr)
    → k.kern_mem_curr % 4096 ≡ 0
    → k.user_mem_curr % 4096 ≡ 0
    → OutsidePcb g m.ready_queue
    → IsRing k.links m.ready_queue []
    → Loads d 0 mem es mem'
    → length es < rounds
    → length es ≤ 16
    → k.kern_mem_curr + 4096 * length es + 4096 ≤ 2 ^ 64
    → k.user_mem_curr + 65536 * length es + 4096 ≤ 2 ^ 64
    → OutsidePcb g head
    → (head == m.ready_queue) ≡ false
    → OutsidePcb g other
    → IsRing k.links head []
    → (k' : Kernel) × (init_tasks m g d rounds 0 mem k ≡ some (mem', k'))
      × Ready m g k.kern_mem_curr k.user_mem_curr (length es) (byte_at es) k'
      × Quiet head other k k'
init_tasks-Quiet m g d rounds es mem mem' k head other kern_aligned user_aligned ready_out empty
      loads enough few kern_room user_room head_out head_ready other_out quiet =
    let kern = k.kern_mem_curr in
    let user = k.user_mem_curr in
    let step : (n : ℕ) (k1 : Kernel)
        → n < length es
        → Ready m g kern user n (byte_at es) k1 × Quiet head other k k1
        → Ready m g kern user (suc n) (byte_at es) (init_task m g n (byte_at es n) k1)
          × Quiet head other k (init_task m g n (byte_at es n) k1) =
      λ n k1 lt r. (
        init_task-Ready m g d kern user kern_aligned user_aligned ready_out (byte_at es) n k1
            (omega arith) (omega arith) (omega arith) r.0,
        init_task-Quiet m g head other k ready_out head_out head_ready other_out kern user n k1
            r.0.before kern_aligned user_aligned (omega arith) (omega arith) (omega arith)
            (byte_at es n) r.1,
      ) in
    let (k', goes, done) =
      init_tasks-keep m g d kern user kern_aligned user_aligned ready_out (byte_at es)
        (λ n k1. Ready m g kern user n (byte_at es) k1 × Quiet head other k k1) (length es) step es
        rounds 0 mem mem' k loads enough (omega arith) (λ q lt. ap (byte_at es) (omega arith))
        (
          no_task-Ready m g (byte_at es) k empty,
          record { ring = quiet; block = refl; cpu = refl },
        ) in
    let whole : 0 + length es ≡ length es = omega arith in
    let r = subst (λ n. Ready m g kern user n (byte_at es) k' × Quiet head other k k') whole done in
    (k', goes, r.0, r.1)
