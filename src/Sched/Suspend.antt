-- ===== src/Sched/Suspend.antt =====
-- kernel/sched/sched.c: `do_sleep` and `do_exit`, and what happens to them when nobody is ready.

use mathlib.Core.Path.{subst}
use ucas_oslab_project.Common.{
  ℕ, ◌+◌, ◌%◌, ◌^◌, ◌≤◌, ◌<◌, ◌≡◌, refl, ap, ◌∙◌, true, false, some, List, [], ◌∷◌, ◌++◌, arith,
  ◌==◌, if◌then◌else◌, length, has, has-append, length-append,
}
use ucas_oslab_project.LinkedList.{Ptr, list_move_tail}
use ucas_oslab_project.LinkedList.Chain.{IsRing, SameOutside, IsRing-frame}
use ucas_oslab_project.LinkedList.Move.{list_move_tail-IsDetached}
use ucas_oslab_project.Kernel.{
  task_blocked, task_ready, task_exited, Machine, Kernel, list_of, list_entry, is_running,
  set_status,
}
use ucas_oslab_project.Sched.{
  do_scheduler, do_block, get_timer, get_ticks, divu, start_sleep, do_sleep, do_exit,
}
use ucas_oslab_project.Sched.Wake.{Woke}
use ucas_oslab_project.Sched.Sleep.{wakers, sleepers}
use ucas_oslab_project.Sched.Dispatch.{status_of, IsSched}
use ucas_oslab_project.Sched.RoundRobin.{Turn, queues, do_scheduler-Turn}

module _ (m : Machine) (k : Kernel) {ready sleeping : List Ptr} (s : IsSched m k ready sleeping)
    (run : is_running (status_of k k.current_running) ≡ true) where
  abbrev self : Ptr
  self = list_of k.current_running

  queue_self :
      IsRing (list_move_tail self m.sleep_queue k.links) m.sleep_queue (sleeping ++ self ∷ [])
      × SameOutside
          (self ∷ m.sleep_queue ∷ sleeping)
          k.links
          (list_move_tail self m.sleep_queue k.links)
  queue_self =
      list_move_tail-IsDetached k.links self m.sleep_queue sleeping (s.current run).0
        s.queued.sleep_ring (s.current run).1.1

  pub not_self : (q : Ptr) → has q ready ≡ true → (list_entry q == k.current_running) ≡ false
  not_self q i =
      let v : 16 ≤ q = s.queued.valid q (ground (arith, has-append q ready sleeping)) in
      ground (arith, (s.current run).1.0)

  -- The task that goes to sleep joins the end of the sleep queue, and is blocked.
  pub start_sleep-IsSched : (t : ℕ) → IsSched m (start_sleep m t k) ready (sleeping ++ self ∷ [])
  unfolding start_sleep do_block get_timer get_ticks
  start_sleep-IsSched t = record {
    queued = record {
      ready_ring =
          IsRing-frame (self ∷ m.sleep_queue ∷ sleeping) queue_self.1
            (λ q i. ground (arith, s.queued.apart q, (s.current run).1.0)) s.queued.ready_ring;
      sleep_ring = queue_self.0;
      apart = λ q i.
          ground (arith, s.queued.apart q, (s.current run).1.0, has-append q sleeping (self ∷ []));
      valid = λ q i. ground (
        arith,
        s.queued.valid q,
        has-append q ready (sleeping ++ self ∷ []),
        has-append q sleeping (self ∷ []),
        has-append q ready sleeping,
      );
    };
    waiting = λ q i. ground (arith, s.waiting q i, not_self q i);
    asleep = λ q i. ground (arith, s.asleep q, has-append q sleeping (self ∷ []));
    current = λ on. ground arith;
  }

  start_sleep-current : (t : ℕ) → (start_sleep m t k).current_running ≡ k.current_running
  unfolding start_sleep do_block get_timer get_ticks
  start_sleep-current t = refl

  start_sleep-cpu : (t : ℕ) → (start_sleep m t k).cpu ≡ k.cpu
  unfolding start_sleep do_block get_timer get_ticks
  start_sleep-cpu t = refl

  start_sleep-status : (t : ℕ) → status_of (start_sleep m t k) k.current_running ≡ task_blocked
  unfolding start_sleep do_block get_timer get_ticks
  start_sleep-status t = ground arith

  start_sleep-wakeup_time :
      (t : ℕ)
      → ((start_sleep m t k).pcb k.current_running).wakeup_time
        ≡ (divu (m.rdtime k.reads) k.time_base + t) % 2 ^ 64
  unfolding start_sleep do_block get_timer get_ticks
  start_sleep-wakeup_time t = ground arith

  -- do_sleep of a running task blocks it, sets its wake-up time to the timer plus the seconds
  -- asked for (modulo 2^64), puts it at the end of the sleep queue and takes a turn of the
  -- scheduler, which ends.
  pub do_sleep-Turn :
      (t : ℕ)
      → length sleeping + 1 < m.fuel
      → let k0 = start_sleep m t k in
        let asleep = sleeping ++ self ∷ [] in
        (((k0.pcb k.current_running).wakeup_time
            ≡ (divu (m.rdtime k.reads) k.time_base + t) % 2 ^ 64)
          × (status_of k0 k.current_running ≡ task_blocked))
        × ((k1 : Kernel) × (k' : Kernel) × (do_sleep m t k ≡ some k')
            × Woke m k0 k1 (queues m ready asleep) ready (wakers m k0 asleep) (sleepers m k0 asleep)
            × Turn m k1 k' (ready ++ wakers m k0 asleep) (sleepers m k0 asleep))
  unfolding do_sleep
  do_sleep-Turn t enough = (
    (start_sleep-wakeup_time t, start_sleep-status t),
    do_scheduler-Turn m (start_sleep m t k) ready (sleeping ++ self ∷ []) (start_sleep-IsSched t)
        (omega (arith, length-append sleeping (self ∷ []))),
  )

  -- An exiting task leaves the scheduler's queues as they are.
  do_exit-IsSched : IsSched m (set_status k.current_running task_exited k) ready sleeping
  do_exit-IsSched = record {
    queued = record {
      ready_ring = s.queued.ready_ring;
      sleep_ring = s.queued.sleep_ring;
      apart = s.queued.apart;
      valid = s.queued.valid;
    };
    waiting = λ q i. ground (arith, s.waiting q i, not_self q i);
    asleep = λ q i.
        let v : 16 ≤ q = s.queued.valid q (ground (arith, has-append q ready sleeping)) in
        ground (arith, s.asleep q i, (s.current run).1.1);
    current = λ on. ground arith;
  }

  -- do_exit of a running task marks it as exited and takes a turn of the scheduler, which ends and
  -- does not queue the exited task.
  pub do_exit-Turn :
      length sleeping < m.fuel
      → let k0 = set_status k.current_running task_exited k in
        (k1 : Kernel) × (k' : Kernel) × (do_exit m k ≡ some k')
        × Woke m k0 k1
            (queues m ready sleeping)
            ready
            (wakers m k0 sleeping)
            (sleepers m k0 sleeping)
        × Turn m k1 k' (ready ++ wakers m k0 sleeping) (sleepers m k0 sleeping)
  unfolding do_exit
  do_exit-Turn enough = do_scheduler-Turn m _ ready sleeping do_exit-IsSched enough

-- A turn with nobody to run returns to the task that asked for it.
pub turn_alone :
    (m : Machine) (k0 : Kernel) (sleeping : List Ptr)
    → IsSched m k0 [] sleeping
    → length sleeping < m.fuel
    → wakers m k0 sleeping ≡ []
    → (k' : Kernel) × (do_scheduler m k0 ≡ some k')
      × (k'.current_running ≡ k0.current_running)
      × (k'.cpu ≡ k0.cpu)
      × (k'.mlocks ≡ k0.mlocks)
      × (k'.pcb k0.current_running ≡ k0.pcb k0.current_running)
turn_alone m k0 sleeping s enough nobody =
    let (k1, k', goes, o, turn) = do_scheduler-Turn m k0 [] sleeping s enough in
    let same : k' ≡ k1 = (subst (λ l. Turn m k1 k' l (sleepers m k0 sleeping)) nobody turn).0 in
    (
      k1,
      goes ∙ ap some same,
      o.rest.current_running,
      o.rest.cpu,
      o.rest.mlocks,
      subst
          (λ l. k1.pcb k0.current_running ≡ (
            if has (list_of k0.current_running) l
            then record (k0.pcb k0.current_running) { status = task_ready }
            else k0.pcb k0.current_running))
          nobody (o.tasks k0.current_running),
    )

-- With nobody ready and nobody due, do_sleep returns at once to the caller, which goes on running
-- on its own stack while it is marked as blocked.
pub do_sleep_alone :
    (m : Machine) (k : Kernel) (sleeping : List Ptr) (t : ℕ)
    → IsSched m k [] sleeping
    → is_running (status_of k k.current_running) ≡ true
    → length sleeping + 1 < m.fuel
    → wakers m (start_sleep m t k) (sleeping ++ list_of k.current_running ∷ []) ≡ []
    → (k' : Kernel) × (do_sleep m t k ≡ some k')
      × (k'.current_running ≡ k.current_running)
      × (k'.cpu ≡ k.cpu)
      × (status_of k' k.current_running ≡ task_blocked)
unfolding do_sleep
do_sleep_alone m k sleeping t s run enough nobody =
    let (k', goes, cur, cpu, locks, same) =
      turn_alone m (start_sleep m t k) (sleeping ++ list_of k.current_running ∷ [])
        (start_sleep-IsSched m k s run t)
        (omega (arith, length-append sleeping (list_of k.current_running ∷ []))) nobody in
    (
      k',
      goes,
      cur ∙ start_sleep-current m k s run t,
      cpu ∙ start_sleep-cpu m k s run t,
      ap (λ q. q.status)
            (subst (λ c. k'.pcb c ≡ (start_sleep m t k).pcb c) (start_sleep-current m k s run t)
              same)
          ∙ start_sleep-status m k s run t,
    )
