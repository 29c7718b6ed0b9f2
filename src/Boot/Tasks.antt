-- ===== src/Boot/Tasks.antt =====
-- init/main.c: the ready queue that `init_pcb` leaves.
use mathlib.Core.Path.{subst}
use ucas_oslab_project.Common.{
  ℕ, zero, suc, ◌+◌, ◌*◌, ◌%◌, ◌^◌, ◌≤◌, ◌<◌, ◌≡◌, ◌≢◌, sym, ap, ◌∙◌, ◌==◌, ◌⊎◌, inl, inr, false,
  some, List, [], ◌∷◌, arith, length, Bool-cases, ==_iff,
}
use ucas_oslab_project.LinkedList.Chain.{IsRing}
use ucas_oslab_project.Kernel.{Machine, Kernel}
use ucas_oslab_project.Strings.{Mem}
use ucas_oslab_project.Strings.Build.{byte_at}
use ucas_oslab_project.Loader.{Disk, load_task_img}
use ucas_oslab_project.Boot.{Globals, name_at, init_task, init_tasks, init_pcb}
use ucas_oslab_project.Boot.Task.{
  TaskAt, Before, nodes, init_task-Before, init_task-TaskAt, init_task-keeps,
}

-- From task `i` on, the names lead to loads at the entry points `es`, and the next name is empty.
abbrev pub Loads : Disk → ℕ → Mem → List ℕ → Mem → Type 0
Loads d i mem [] mem' = (mem (name_at d i) ≡ 0) × (mem' ≡ mem)
Loads d i mem (e ∷ es) mem' =
    (mem1 : Mem) × (mem (name_at d i) ≢ 0)
    × (load_task_img d (name_at d i) mem ≡ some (e, mem1))
    × Loads d (i + 1) mem1 es mem'

-- The first `n` tasks are ready, in their order, with the entry points that `entry` gives.
pub record Ready (m : Machine) (g : Globals) (kern user n : ℕ) (entry : ℕ → ℕ) (k : Kernel)
    : Type 0 where
  pub before : Before m g kern user n k
  pub tasks : (j : ℕ) → j < n → TaskAt m g kern user k j (entry j)

module _ (m : Machine) (g : Globals) (d : Disk) (kern user : ℕ) (kern_aligned : kern % 4096 ≡ 0)
    (user_aligned : user % 4096 ≡ 0)
    (apart : (m.ready_queue < g.pcb) ⊎ (g.pcb + 72 * 16 ≤ m.ready_queue)) (entry : ℕ → ℕ) where
  pub init_task-Ready :
      (n : ℕ) (k : Kernel)
      → n < 16
      → kern + 4096 * n + 8192 ≤ 2 ^ 64
      → user + 65536 * n + 69632 ≤ 2 ^ 64
      → Ready m g kern user n entry k
      → Ready m g kern user (suc n) entry (init_task m g n (entry n) k)
  init_task-Ready n k few kern_room user_room r = record {
    before =
        init_task-Before m g kern user n k r.before kern_aligned user_aligned kern_room user_room
          few apart (entry n);
    tasks = λ j lt. elim (Bool-cases (j == n)) [
      | inl same ↦
          subst (λ i. TaskAt m g kern user (init_task m g n (entry n) k) i (entry i))
            (sym ((==_iff j n).0 same))
            (init_task-TaskAt m g kern user n k r.before kern_aligned user_aligned kern_room
              user_room (entry n))
      | inr earlier ↦
          init_task-keeps m g kern user n k r.before kern_aligned user_aligned kern_room user_room
            (entry n) j (entry j) (ground arith) (r.tasks j (ground arith))
    ];
  }

  init_tasks-empty :
      (rounds i : ℕ) (mem : Mem) (k : Kernel)
      → mem (name_at d i) ≡ 0
      → init_tasks m g d (suc rounds) i mem k ≡ some (mem, k)
  unfolding init_tasks
  init_tasks-empty rounds i mem k e = rw e

  init_tasks-next :
      (rounds i e : ℕ) (mem mem1 : Mem) (k : Kernel)
      → mem (name_at d i) ≢ 0
      → load_task_img d (name_at d i) mem ≡ some (e, mem1)
      → init_tasks m g d (suc rounds) i mem k
        ≡ init_tasks m g d rounds (i + 1) mem1 (init_task m g i e k)
  unfolding init_tasks
  init_tasks-next rounds i e mem mem1 k named loads =
      let known : (mem (name_at d i) == 0) ≡ false = ground arith in rw (known, loads, init_tasks)

  -- What holds before the first round, and is kept by the round of each task below `limit`, holds
  -- after the loop.
  module _ (P : ℕ → Kernel → Type 0) (limit : ℕ)
      (step : (n : ℕ) (k : Kernel)
        → n < limit
        → P n k
        → P (suc n) (init_task m g n (entry n) k)) where
    pub init_tasks-keep :
        (es : List ℕ) (rounds i : ℕ) (mem mem' : Mem) (k : Kernel)
        → Loads d i mem es mem'
        → length es < rounds
        → i + length es ≤ limit
        → ((q : ℕ) → q < length es → entry (i + q) ≡ byte_at es q)
        → P i k
        → (k' : Kernel) × (init_tasks m g d rounds i mem k ≡ some (mem', k')) × P (i + length es) k'
    init_tasks-keep es zero i mem mem' k loads enough few es_are r = absurd (omega arith)
    init_tasks-keep [] (suc rounds) i mem mem' k loads enough few es_are r = (
      k,
      init_tasks-empty rounds i mem k loads.0 ∙ ap (λ z. some (z, k)) (sym loads.1),
      subst (λ n. P n k) (omega arith) r,
    )
    init_tasks-keep (e ∷ es) (suc rounds) i mem mem' k (mem1, named, load, more) enough few es_are
          r =
        let here : entry i ≡ e = ap entry (omega arith) ∙ es_are 0 (omega arith) in
        let k1 = init_task m g i (entry i) k in
        let next : i + 1 ≡ suc i = omega arith in
        let (k', goes, done) =
          init_tasks-keep es rounds (i + 1) mem1 mem' k1 more (omega arith) (omega arith)
            (λ q lt. ap entry (omega arith) ∙ es_are (suc q) (omega arith))
            (subst (λ n. P n k1) (sym next) (step i k (omega arith) r)) in
        (
          k',
          init_tasks-next rounds i e mem mem1 k named load
              ∙ ap (λ z. init_tasks m g d rounds (i + 1) mem1 (init_task m g i z k)) (sym here)
              ∙ goes,
          subst (λ n. P n k') (omega arith) done,
        )

pub no_task-Ready :
    (m : Machine) (g : Globals) (entry : ℕ → ℕ) (k : Kernel)
    → IsRing k.links m.ready_queue []
    → Ready m g k.kern_mem_curr k.user_mem_curr 0 entry k
no_task-Ready m g entry k empty = record {
  before = record { kern_page = omega arith; user_page = omega arith; queue = empty };
  tasks = λ j lt. absurd (omega arith);
}

-- Where the names from the first on lead to loads at given entry points (16 at most) and the next
-- name is empty, the two allocators stand at pages with room for the stacks, the ready queue's
-- head is apart from the blocks and the queue is empty, init_pcb ends, given more rounds than
-- names, with pid0's block as the current task; the ready queue holds the tasks in the order of
-- their names, and each task j has the pid j + 1, is ready, and goes on at ret_from_exception with
-- a trap frame from which its program starts in user mode at its entry point on a stack of its
-- own.
pub init_pcb-Ready :
    (m : Machine) (g : Globals) (d : Disk) (rounds : ℕ) (es : List ℕ) (mem mem' : Mem) (k : Kernel)
    → k.kern_mem_curr % 4096 ≡ 0
    → k.user_mem_curr % 4096 ≡ 0
    → (m.ready_queue < g.pcb) ⊎ (g.pcb + 72 * 16 ≤ m.ready_queue)
    → IsRing k.links m.ready_queue []
    → Loads d 0 mem es mem'
    → length es < rounds
    → length es ≤ 16
    → k.kern_mem_curr + 4096 * length es + 4096 ≤ 2 ^ 64
    → k.user_mem_curr + 65536 * length es + 4096 ≤ 2 ^ 64
    → (k' : Kernel) × (init_pcb m g d rounds mem k
        ≡ some (mem', record k' { current_running = g.pid0_pcb }))
      × IsRing k'.links m.ready_queue (nodes g (length es))
      × ((j : ℕ) → j < length es → TaskAt m g k.kern_mem_curr k.user_mem_curr k' j (byte_at es j))
unfolding init_pcb
init_pcb-Ready m g d rounds es mem mem' k kern_aligned user_aligned apart empty loads enough few
      kern_room user_room =
    let kern = k.kern_mem_curr in
    let user = k.user_mem_curr in
    let step : (n : ℕ) (k : Kernel)
        → n < length es
        → Ready m g kern user n (byte_at es) k
        → Ready m g kern user (suc n) (byte_at es) (init_task m g n (byte_at es n) k) =
      λ n k lt r.
        init_task-Ready m g d kern user kern_aligned user_aligned apart (byte_at es) n k
          (omega arith) (omega arith) (omega arith) r in
    let (k', goes, done) =
      init_tasks-keep m g d kern user kern_aligned user_aligned apart (byte_at es)
        (λ n. Ready m g kern user n (byte_at es)) (length es) step es rounds 0 mem mem' k loads
        enough (omega arith) (λ q lt. ap (byte_at es) (omega arith))
        (no_task-Ready m g (byte_at es) k empty) in
    let whole : 0 + length es ≡ length es = omega arith in
    let all = subst (λ n. Ready m g kern user n (byte_at es) k') whole done in
    (k', rw (goes, init_pcb), all.before.queue, all.tasks)
