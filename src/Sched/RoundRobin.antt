-- ===== src/Sched/RoundRobin.antt =====
-- kernel/sched/sched.c: `do_scheduler` as a whole, waking up included.
use mathlib.Core.Option
use mathlib.Core.Path.{subst}
use ucas_oslab_project.LinkedList.Remove.{IsDetached}
use ucas_oslab_project.Common.{
  ℕ, ◌≤◌, ◌<◌, ◌≡◌, refl, sym, ap, ◌∙◌, inl, inr, true, false, some, List, [], ◌∷◌, ◌++◌, suc,
  arith, ◌==◌, if◌then◌else◌, Bool-cases, length, has, has-append, Distinct,
}
use ucas_oslab_project.LinkedList.{Ptr, list_empty}
use ucas_oslab_project.LinkedList.Chain.{SameOutside, SameOutside-trans, SameOutside-mono}
use ucas_oslab_project.Kernel.{task_ready, Machine, Kernel, list_of, list_entry, is_running}
use ucas_oslab_project.Sched.{schedule, do_scheduler}
use ucas_oslab_project.Sched.Wake.{Woke, woken, kept, due}
use ucas_oslab_project.Sched.Sleep.{wakers, sleepers, check_sleeping-Woke}
use ucas_oslab_project.Sched.Dispatch.{status_of, IsOff, IsSched, requeued}
use ucas_oslab_project.Sched.Schedule.{Scheduled, schedule-result, schedule-Scheduled}

module _ (m : Machine) (base : ℕ) (w : Ptr → ℕ) where
  has-woken :
      (r : ℕ) (xs : List Ptr) (q : Ptr) → has q (woken m base w r xs) ≡ true → has q xs ≡ true
  has-woken r [] q i = i
  has-woken r (x ∷ xs) q i = elim (Bool-cases (due m base w r x)) [
    | inl now ↦ ground (arith, has-woken (suc r) xs q)
    | inr later ↦ ground (arith, has-woken (suc r) xs q)
  ]

  has-kept :
      (r : ℕ) (xs : List Ptr) (q : Ptr)
      → Distinct xs
      → has q (kept m base w r xs) ≡ true
      → (has q xs ≡ true) × (has q (woken m base w r xs) ≡ false)
  has-kept r [] q d i = (i, refl)
  has-kept r (x ∷ xs) q d i = elim (Bool-cases (due m base w r x)) [
    | inl now ↦ ground (arith, has-kept (suc r) xs q d.1, has-woken (suc r) xs q)
    | inr later ↦ ground (arith, has-kept (suc r) xs q d.1, has-woken (suc r) xs q)
  ]

-- The nodes of the two queues, their heads included.
abbrev pub queues : Machine → List Ptr → List Ptr → List Ptr
queues m ready sleeping = (m.ready_queue ∷ ready) ++ m.sleep_queue ∷ sleeping

module _ {m : Machine} {k k' : Kernel} {ready sleeping : List Ptr} (s : IsSched m k ready sleeping)
    (o : Woke m k k'
      (queues m ready sleeping)
      ready
      (wakers m k sleeping)
      (sleepers m k sleeping)) where
  slept :
      (q : Ptr)
      → has q (sleepers m k sleeping) ≡ true
      → (has q sleeping ≡ true) × (has q (wakers m k sleeping) ≡ false)
  slept q =
      has-kept m k.time_base (λ p. (k.pcb p).wakeup_time) k.reads sleeping q
        s.queued.sleep_ring.distinct.1

  pub woke : (q : Ptr) → has q (wakers m k sleeping) ≡ true → has q sleeping ≡ true
  woke q = has-woken m k.time_base (λ p. (k.pcb p).wakeup_time) k.reads sleeping q

  -- The status of a task whose node is `q`.
  status_at :
      (q : Ptr)
      → 16 ≤ q
      → status_of k' (list_entry q)
        ≡ (if has q (wakers m k sleeping) then task_ready else status_of k (list_entry q))
  status_at q v =
      let e : list_of (list_entry q) ≡ q = omega arith in
      ap (λ t. t.status) (o.tasks (list_entry q)) ∙ rw e (ground arith)

  valid1 :
      (q : Ptr) → has q ((ready ++ wakers m k sleeping) ++ sleepers m k sleeping) ≡ true → 16 ≤ q
  valid1 q i = ground (
    arith,
    s.queued.valid q,
    slept q,
    woke q,
    has-append q ready sleeping,
    has-append q ready (wakers m k sleeping),
    has-append q (ready ++ wakers m k sleeping) (sleepers m k sleeping),
  )

  current_at :
      is_running (status_of k' k.current_running) ≡ true
      → IsDetached k'.links (list_of k.current_running)
        × IsOff m (ready ++ wakers m k sleeping) (sleepers m k sleeping) (list_of k.current_running)
  current_at run = elim (Bool-cases (has (list_of k.current_running) (wakers m k sleeping))) [
    | inl up ↦ absurd (ground (arith, o.tasks k.current_running))
    | inr not ↦
        let (detached, off) = s.current (ground (arith, o.tasks k.current_running)) in
        let n = list_of k.current_running in
        let apart =
          o.same n
            (ground (arith, has-append n (m.ready_queue ∷ ready) (m.sleep_queue ∷ sleeping))) in
        (
          (apart.0 ∙ detached.0, apart.1 ∙ detached.1),
          (ground (arith, has-append n ready (wakers m k sleeping)), ground (arith, slept n)),
        )
  ]

  -- Waking up keeps what the scheduler relies on.
  pub Woke-IsSched : IsSched m k' (ready ++ wakers m k sleeping) (sleepers m k sleeping)
  Woke-IsSched = record {
    queued = record {
      ready_ring = o.ready_ring;
      sleep_ring = o.sleep_ring;
      apart = λ q i. ground (
        arith,
        s.queued.apart q,
        slept q,
        woke q,
        has-append q ready (wakers m k sleeping),
        s.queued.sleep_ring.distinct.0,
      );
      valid = λ q i. valid1 q i;
    };
    waiting = λ q i. ground (
      arith,
      status_at q (
          valid1 q
            (ground (arith, has-append q (ready ++ wakers m k sleeping) (sleepers m k sleeping)))),
      s.waiting q,
      has-append q ready (wakers m k sleeping),
    );
    asleep = λ q i. ground (
      arith,
      status_at q (
          valid1 q
            (ground (arith, has-append q (ready ++ wakers m k sleeping) (sleepers m k sleeping)))),
      s.asleep q,
      slept q,
    );
    current =
        subst
          (λ c.
            is_running (status_of k' c) ≡ true
            → IsDetached k'.links (list_of c)
              × IsOff m (ready ++ wakers m k sleeping) (sleepers m k sleeping) (list_of c))
          (sym o.rest.current_running) current_at;
  }

-- A turn of the scheduler from `k`, with the ready queue and the sleep queue given: nothing
-- happens if nobody is ready, and else the first task gets the processor.
abbrev pub Turn : Machine → Kernel → Kernel → List Ptr → List Ptr → Type 0
Turn m k k' [] sleeping = (k' ≡ k) × IsSched m k' [] sleeping
Turn m k k' (x ∷ xs) sleeping = Scheduled m k k' x xs sleeping

schedule-Turn :
    (m : Machine) (k : Kernel) (ready sleeping : List Ptr)
    → IsSched m k ready sleeping
    → Turn m k (schedule m k) ready sleeping
unfolding schedule list_empty
schedule-Turn m k [] sleeping s =
    let none_ready : (k.links.next m.ready_queue == m.ready_queue) ≡ true =
      ground (arith, s.queued.ready_ring.chain) in
    rw none_ready (refl, s)
schedule-Turn m k (x ∷ xs) sleeping s =
    subst (λ k'. Scheduled m k k' x xs sleeping) (sym (schedule-result m k x s))
      (schedule-Scheduled m k x s)

-- From a state in which the two queues are rings, ready tasks are ready, sleepers blocked and a
-- running current task on no list, do_scheduler ends (given more fuel than sleepers); it wakes the
-- sleepers that are due and then, if nobody is ready, changes nothing more, and else makes the
-- first ready task the running current one, puts the previous one at the end of the ready queue if
-- it was running, and keeps the invariant.
pub do_scheduler-Turn :
    (m : Machine) (k : Kernel) (ready sleeping : List Ptr)
    → IsSched m k ready sleeping
    → length sleeping < m.fuel
    → (k1 : Kernel) × (k' : Kernel) × (do_scheduler m k ≡ some k')
      × Woke m k k1 (queues m ready sleeping) ready (wakers m k sleeping) (sleepers m k sleeping)
      × Turn m k1 k' (ready ++ wakers m k sleeping) (sleepers m k sleeping)
unfolding do_scheduler
do_scheduler-Turn m k ready sleeping s enough =
    let (k1, goes, o, ticked) = check_sleeping-Woke m k ready sleeping s.queued enough in
    (
      k1,
      schedule m k1,
      ap (Option.map (schedule m)) goes,
      o,
      schedule-Turn m k1 _ _ (Woke-IsSched s o),
    )

pub Turn-mlocks :
    (m : Machine) (k k' : Kernel) (ready sleeping : List Ptr)
    → Turn m k k' ready sleeping
    → k'.mlocks ≡ k.mlocks
Turn-mlocks m k k' [] sleeping t = ap (λ a. a.mlocks) t.0
Turn-mlocks m k k' (x ∷ xs) sleeping t = t.mlocks

-- A task that is neither running nor queued as ready keeps its status.
pub Turn-status :
    (m : Machine) (k k' : Kernel) (ready sleeping : List Ptr) (p : Ptr)
    → IsSched m k ready sleeping
    → Turn m k k' ready sleeping
    → has (list_of p) ready ≡ false
    → is_running (status_of k p) ≡ false
    → status_of k' p ≡ status_of k p
Turn-status m k k' [] sleeping p s t off stopped = ap (λ a. status_of a p) t.0
Turn-status m k k' (x ∷ xs) sleeping p s t off stopped =
    let v : 16 ≤ x = s.queued.valid x (ground arith) in t.others p (ground arith) (ground arith)

Turn-SameOutside :
    (m : Machine) (k k' : Kernel) (ready sleeping ws : List Ptr)
    → Turn m k k' ready sleeping
    → ((q : Ptr) → has q ws ≡ false → has q (requeued k ++ m.ready_queue ∷ ready) ≡ false)
    → SameOutside ws k.links k'.links
Turn-SameOutside m k k' [] sleeping ws t sub q out = rw (t.0) (refl, refl)
Turn-SameOutside m k k' (x ∷ xs) sleeping ws t sub q out = t.same q (sub q out)

requeued-Woke :
    (m : Machine) (k k1 : Kernel) (ws ready up asleep : List Ptr) (q : Ptr)
    → Woke m k k1 ws ready up asleep
    → has q (requeued k) ≡ false
    → has q (requeued k1) ≡ false
requeued-Woke m k k1 ws ready up asleep q o out =
    subst (λ c. has q (if is_running (status_of k1 c) then list_of c ∷ [] else []) ≡ false)
      (sym o.rest.current_running)
      (elim (Bool-cases (is_running (status_of k k.current_running))) [
        | inl run ↦ ground (arith, o.tasks k.current_running)
        | inr not ↦ ground (arith, o.tasks k.current_running)
      ])

-- `do_scheduler` writes to the two queues, and to the current task's node if that goes on one.
pub do_scheduler-SameOutside :
    (m : Machine) (k k1 k' : Kernel) (ready sleeping : List Ptr)
    → IsSched m k ready sleeping
    → Woke m k k1 (queues m ready sleeping) ready (wakers m k sleeping) (sleepers m k sleeping)
    → Turn m k1 k' (ready ++ wakers m k sleeping) (sleepers m k sleeping)
    → SameOutside (requeued k ++ queues m ready sleeping) k.links k'.links
do_scheduler-SameOutside m k k1 k' ready sleeping s o t =
    SameOutside-trans (requeued k ++ queues m ready sleeping)
      (SameOutside-mono (queues m ready sleeping) (requeued k ++ queues m ready sleeping)
        (λ q out. ground (arith, has-append q (requeued k) (queues m ready sleeping))) o.same)
      (Turn-SameOutside m k1 k' (ready ++ wakers m k sleeping) (sleepers m k sleeping) _ t (λ q out.
        ground (
          arith,
          requeued-Woke m k k1 _ ready _ _ q o,
          has-append q (requeued k) (queues m ready sleeping),
          has-append q (m.ready_queue ∷ ready) (m.sleep_queue ∷ sleeping),
          woke s o q,
          has-append q ready (wakers m k sleeping),
          has-append q (requeued k1) (m.ready_queue ∷ (ready ++ wakers m k sleeping)),
        )))
