-- ===== src/Boot/First.antt =====
-- init/main.c with kernel/sched/sched.c and arch/riscv/kernel/entry.S: the first task that gets the
-- processor.
use mathlib.Core.Path.{subst}
use mathlib.Core.List.{append-nil}
use mathlib.Core.Option
use ucas_oslab_project.Common.{
  ℕ, zero, suc, ◌+◌, ◌^◌, ◌≤◌, ◌<◌, ◌≡◌, refl, sym, ap, ◌∙◌, ◌==◌, inl, inr, false, true, some,
  List, [], ◌∷◌, ◌++◌, arith, Bool-cases, has, has-append,
}
use ucas_oslab_project.LinkedList.{Ptr}
use ucas_oslab_project.Kernel.{
  task_blocked, task_running, is_running, Cpu, Machine, Kernel, list_of, list_entry,
}
use ucas_oslab_project.Sched.{
  save_context, load_context, switch_to, enqueue_running, schedule, do_scheduler,
}
use ucas_oslab_project.Sched.Switch.{frame_of, header, saved-stack, save_s-outside, other_sp}
use ucas_oslab_project.Sched.Sleep.{check_sleeping-Woke}
use ucas_oslab_project.Sched.Dispatch.{status_of, IsSched, requeued, dispatched}
use ucas_oslab_project.Sched.Schedule.{schedule-result, Scheduled, schedule-Scheduled}
use ucas_oslab_project.Sched.RoundRobin.{Woke-IsSched}
use ucas_oslab_project.Boot.{Globals, pcb_at}
use ucas_oslab_project.Boot.Task.{TaskAt, nodes, nodes-has}
use ucas_oslab_project.Boot.Tasks.{Ready}
use ucas_oslab_project.Boot.Quiet.{Quiet, OutsidePcb}

-- A switch to a task whose frame at `base` lies above the stack of the task that is left.
switch_to-above :
    (k : Kernel) (prev next : Ptr) (base ra : ℕ)
    → (next == prev) ≡ false
    → (k.pcb next).kernel_sp ≡ base
    → k.stack base ≡ ra
    → k.stack (base + 8) ≡ base
    → 112 ≤ k.cpu.sp
    → k.cpu.sp ≤ base
    → base + 112 < 2 ^ 64
    → ((switch_to prev next k).cpu.ra ≡ ra)
      × ((switch_to prev next k).cpu.sp ≡ base + 112)
      × ((q : Ptr) → base ≤ q → (switch_to prev next k).stack q ≡ k.stack q)
unfolding switch_to load_context
switch_to-above k prev next base ra ne at ra_at sp_at room below high =
    let same = other_sp k next prev ne ∙ at in
    let spared : (q : Ptr) → base ≤ q → (save_context prev k).stack q ≡ k.stack q = λ q le.
      saved-stack k prev q
      ∙ save_s-outside 12 (frame_of k) k.cpu.s (header k) q (inr (omega arith))
      ∙ ground arith in
    let e0 = spared base (omega arith) in
    let e8 = spared (base + 8) (omega arith) in
    (rw same (e0 ∙ ra_at), rw same (ground (arith, e8, sp_at)), spared)

-- The nodes of the tasks from the second to the one of index `n`.
abbrev pub later : Globals → ℕ → List Ptr
later g zero = []
later g (suc n) = later g n ++ list_of (pcb_at g (suc n)) ∷ []

nodes-later : (g : Globals) (n : ℕ) → nodes g (suc n) ≡ list_of (pcb_at g 0) ∷ later g n
nodes-later g zero = refl
nodes-later g (suc n) = rw (nodes-later g n)

nodes-in :
    (g : Globals) (n : ℕ) (q : Ptr)
    → has q (nodes g n) ≡ true
    → (j : ℕ) × (j < n) × (q ≡ list_of (pcb_at g j))
nodes-in g zero q i = cc
nodes-in g (suc n) q i = elim (Bool-cases (has q (nodes g n))) [
  | inl earlier ↦ let (j, lt, e) = nodes-in g n q earlier in (j, omega arith, e)
  | inr not ↦ (n, omega arith, ground (arith, has-append q (nodes g n) (list_of (pcb_at g n) ∷ [])))
]

-- The state in which main waits for the first interrupt.
pub begun-IsSched :
    (m : Machine) (g : Globals) (kern user n : ℕ) (entry : ℕ → ℕ) (k k' : Kernel)
    → Ready m g kern user n entry k'
    → Quiet m.sleep_queue g.pid0_pcb k k'
    → n ≤ 16
    → OutsidePcb g m.sleep_queue
    → (m.sleep_queue == m.ready_queue) ≡ false
    → (k.pcb g.pid0_pcb).status ≡ task_blocked
    → IsSched m (record k' { current_running = g.pid0_pcb }) (nodes g n) []
begun-IsSched m g kern user n entry k k' r quiet few out ne blocked = record {
  queued = record {
    ready_ring = r.before.queue;
    sleep_ring = quiet.ring;
    apart = λ q i. ground (arith, nodes-has g n m.sleep_queue (λ j lt e. omega arith));
    valid = λ q i.
        let (j, lt, e) = nodes-in g n q (ground (arith, has-append q (nodes g n) [])) in
        omega arith;
  };
  waiting = λ q i.
      let (j, lt, e) = nodes-in g n q i in
      let at : list_entry q ≡ pcb_at g j = omega arith in
      ap (λ p. status_of k' p) at ∙ (r.tasks j lt).ready;
  asleep = λ q i. ground arith;
  current = λ run. ground (arith, quiet.block, blocked);
}

enqueue_running-idle :
    (m : Machine) (p : Ptr) (k : Kernel)
    → is_running (status_of k p) ≡ false
    → enqueue_running m p k ≡ k
unfolding enqueue_running
enqueue_running-idle m p k idle = rw idle

-- The first turn, from that state.
pub record FirstTurn (m : Machine) (g : Globals) (kern user n : ℕ) (k' : Kernel) : Type 0 where
  pub inv : IsSched m k' (later g n) []
  pub current : k'.current_running ≡ pcb_at g 0
  pub runs : status_of k' (pcb_at g 0) ≡ task_running
  pub ra : k'.cpu.ra ≡ m.ret_from_exception
  pub sp : k'.cpu.sp ≡ kern + 3696 + 112

pub first-FirstTurn :
    (m : Machine) (g : Globals) (kern user n e : ℕ) (k : Kernel)
    → IsSched m k (nodes g (suc n)) []
    → TaskAt m g kern user k 0 e
    → k.current_running ≡ g.pid0_pcb
    → is_running (status_of k g.pid0_pcb) ≡ false
    → OutsidePcb g g.pid0_pcb
    → 112 ≤ k.cpu.sp
    → k.cpu.sp ≤ kern + 3696
    → kern + 4096 ≤ 2 ^ 64
    → 0 < m.fuel
    → (k' : Kernel) × (do_scheduler m k ≡ some k')
      × FirstTurn m g kern user n k'
      × ((q : Ptr) → kern + 3696 ≤ q → k'.stack q ≡ k.stack q)
unfolding do_scheduler
first-FirstTurn m g kern user n e k s t here idle out room below high fuel =
    let x = list_of (pcb_at g 0) in
    let (k1, goes, o, ticked) = check_sleeping-Woke m k (nodes g (suc n)) [] s.queued fuel in
    let s1 : IsSched m k1 (x ∷ later g n) [] =
      subst (λ l. IsSched m k1 l []) (append-nil (nodes g (suc n)) ∙ nodes-later g n)
        (Woke-IsSched s o) in
    let turn = schedule-result m k1 x s1 in
    let done = schedule-Scheduled m k1 x s1 in
    let at : list_entry x ≡ pcb_at g 0 = omega arith in
    let pcb1 : (p : Ptr) → k1.pcb p ≡ k.pcb p = λ p. o.tasks p in
    let current1 = o.rest.current_running ∙ here in
    let idle1 : is_running (status_of k1 k1.current_running) ≡ false =
      rw current1 (ground (arith, pcb1 g.pid0_pcb, idle)) in
    let same = enqueue_running-idle m k1.current_running k1 idle1 in
    let k2 = dispatched x k1 in
    let apart : (list_entry x == k1.current_running) ≡ false = rw current1 (ground arith) in
    let sp_at : (k2.pcb (list_entry x)).kernel_sp ≡ kern + 3696 =
      ground (arith, pcb1 (list_entry x), at, t.kernel_sp) in
    let k' = switch_to k1.current_running (list_entry x) k2 in
    let stack1 : (q : Ptr) → k2.stack q ≡ k.stack q = λ q. ap (λ f. f q) o.rest.stack in
    let ra_at : k.stack (kern + 3696) ≡ m.ret_from_exception = ground (arith, t.ra) in
    let sp_word : k.stack (kern + 3696 + 8) ≡ kern + 3696 = ground (arith, t.switchto_sp) in
    let sp1 : k2.cpu.sp ≡ k.cpu.sp = ap (λ (c : Cpu). c.sp) o.rest.cpu in
    let load =
      switch_to-above k2 k1.current_running (list_entry x) (kern + 3696) m.ret_from_exception apart
        sp_at (stack1 (kern + 3696) ∙ ra_at) (stack1 (kern + 3696 + 8) ∙ sp_word) (omega arith)
        (omega arith) (omega arith) in
    let d : Scheduled m k1 k' x (later g n) [] =
      subst
        (λ z.
          Scheduled m k1 (switch_to k1.current_running (list_entry x) (dispatched x z)) x
            (later g n) [])
        same done in
    let alone : later g n ++ requeued k1 ≡ later g n = rw idle1 (append-nil (later g n)) in
    (
      k',
      ap (Option.map (schedule m)) goes
          ∙ ap some
              (turn ∙ ap (λ z. switch_to k1.current_running (list_entry x) (dispatched x z)) same),
      record {
        inv = subst (λ l. IsSched m k' l []) alone d.inv;
        current = d.current ∙ at;
        runs = ap (λ p. status_of k' p) (sym at) ∙ d.runs;
        ra = load.0;
        sp = load.1;
      },
      λ q le. load.2 q le ∙ stack1 q,
    )
