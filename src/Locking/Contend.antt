-- ===== src/Locking/Contend.antt =====
-- kernel/locking/lock.c: what acquiring and releasing a mutex does to its status, its block queue
-- and the scheduler's queues.
use mathlib.Core.Path.{subst}
use ucas_oslab_project.Common.{
  ℕ, ◌≤◌, ◌<◌, ◌≡◌, refl, ap, ◌∙◌, true, false, some, List, [], ◌∷◌, ◌++◌, arith, ◌==◌, length, has,
  has-append, Disjoint, get_elem?, get_elem?-set_self,
}
use ucas_oslab_project.Common.Int.{pos}
use ucas_oslab_project.LinkedList.{Ptr, list_empty}
use ucas_oslab_project.LinkedList.Chain.{IsRing, SameOutside, IsRing-frame}
use ucas_oslab_project.LinkedList.Move.{list_move_tail-IsDetached}
use ucas_oslab_project.Kernel.{
  task_blocked, unlocked, locked, MutexLock, Machine, Kernel, list_of, is_running, block_queue,
}
use ucas_oslab_project.Sched.{do_block, do_scheduler}
use ucas_oslab_project.Sched.Sleep.{wakers, sleepers}
use ucas_oslab_project.Sched.Dispatch.{status_of, IsSched, requeued}
use ucas_oslab_project.Sched.Wake.{Woke}
use ucas_oslab_project.Sched.RoundRobin.{
  woke, Woke-IsSched, Turn, Turn-mlocks, Turn-status, queues, do_scheduler-Turn,
  do_scheduler-SameOutside,
}
use ucas_oslab_project.Sched.Suspend.{not_self, turn_alone}
use ucas_oslab_project.Locking.{
  ◌==ℤ◌, no_key, atomic_swap, spin_lock_try_acquire, spin_lock_release, acquire, release, set_lock,
  do_mutex_lock_acquire, do_mutex_lock_release,
}

-- The mutex at index `i` is `l`, in use, with the nodes of the tasks that wait for it.
pub record IsMutex (m : Machine) (k : Kernel) (ready sleeping : List Ptr) (i : ℕ) (l : MutexLock)
    (waiters : List Ptr) : Type 0 where
  pub lock : get_elem? k.mlocks i ≡ some l
  pub keyed : (l.key ==ℤ no_key) ≡ false
  pub queue : IsRing k.links (block_queue m i) waiters
  pub free : l.status ≡ unlocked → waiters ≡ []
  pub apart : Disjoint (block_queue m i ∷ waiters) (queues m ready sleeping)
  pub valid : (q : Ptr) → has q waiters ≡ true → 16 ≤ q

pub do_mutex_lock_acquire-acquire :
    (m : Machine) (k : Kernel) (i : ℕ) {l : MutexLock}
    → get_elem? k.mlocks i ≡ some l
    → do_mutex_lock_acquire m (pos i) k ≡ acquire m i l k
unfolding do_mutex_lock_acquire
do_mutex_lock_acquire-acquire m k i e = rw (e, do_mutex_lock_acquire)

pub do_mutex_lock_release-release :
    (m : Machine) (k : Kernel) (i : ℕ) {l : MutexLock}
    → get_elem? k.mlocks i ≡ some l
    → do_mutex_lock_release m (pos i) k ≡ some (release m i l k)
unfolding do_mutex_lock_release
do_mutex_lock_release-release m k i e = rw (e, do_mutex_lock_release)

-- The state in which a task that meets the taken lock `l` calls the scheduler.
abbrev pub waiting : Machine → ℕ → MutexLock → Kernel → Kernel
waiting m i l k =
    do_block (list_of k.current_running) (block_queue m i)
      (set_lock i (record l { status = locked }) k)

module _ (m : Machine) (k : Kernel) {ready sleeping : List Ptr} (i : ℕ) (l : MutexLock)
    (waiters : List Ptr) (s : IsSched m k ready sleeping)
    (x : IsMutex m k ready sleeping i l waiters) where
  -- Acquiring a free mutex in use marks it as taken and changes nothing else.
  pub acquire_free :
      l.status ≡ unlocked
      → do_mutex_lock_acquire m (pos i) k ≡ some (set_lock i (record l { status = locked }) k)
  unfolding acquire spin_lock_try_acquire atomic_swap
  acquire_free free = do_mutex_lock_acquire-acquire m k i x.lock ∙ rw (x.keyed, free)

  -- Releasing a mutex in use that nobody waits for marks it as free and changes nothing else.
  pub release_free :
      waiters ≡ []
      → do_mutex_lock_release m (pos i) k ≡ some (set_lock i (record l { status = unlocked }) k)
  unfolding release list_empty spin_lock_release atomic_swap
  release_free nobody =
      let chain = (subst (IsRing k.links (block_queue m i)) nobody x.queue).chain in
      let empty : (k.links.next (block_queue m i) == block_queue m i) ≡ true = ground arith in
      do_mutex_lock_release-release m k i x.lock ∙ rw (x.keyed, empty)

  module _ (busy : l.status ≡ locked) where
    acquire_busy : do_mutex_lock_acquire m (pos i) k ≡ do_scheduler m (waiting m i l k)
    unfolding acquire spin_lock_try_acquire atomic_swap
    acquire_busy = do_mutex_lock_acquire-acquire m k i x.lock ∙ rw (x.keyed, busy)

    module _ (run : is_running (status_of k k.current_running) ≡ true)
        (off : has (list_of k.current_running) (block_queue m i ∷ waiters) ≡ false) where
      moved :
          IsRing
            (waiting m i l k).links
            (block_queue m i)
            (waiters ++ (list_of k.current_running) ∷ [])
          × SameOutside
              ((list_of k.current_running) ∷ block_queue m i ∷ waiters)
              k.links
              (waiting m i l k).links
      unfolding do_block
      moved =
          list_move_tail-IsDetached k.links (list_of k.current_running) (block_queue m i) waiters
            (s.current run).0 x.queue off

      apart :
          (q : Ptr)
          → has q (queues m ready sleeping) ≡ true
          → has q ((list_of k.current_running) ∷ block_queue m i ∷ waiters) ≡ false
      apart q i = ground (
        arith,
        x.apart q,
        (s.current run).1,
        has-append q (m.ready_queue ∷ ready) (m.sleep_queue ∷ sleeping),
        has-append (list_of k.current_running) (m.ready_queue ∷ ready) (m.sleep_queue ∷ sleeping),
      )

      -- The scheduler's queues are as they were.
      waiting-IsSched : IsSched m (waiting m i l k) ready sleeping
      unfolding do_block
      waiting-IsSched = record {
        queued = record {
          ready_ring =
              IsRing-frame ((list_of k.current_running) ∷ block_queue m i ∷ waiters) moved.1
                (λ q h.
                  apart q (
                    ground
                      (arith, has-append q (m.ready_queue ∷ ready) (m.sleep_queue ∷ sleeping))))
                s.queued.ready_ring;
          sleep_ring =
              IsRing-frame ((list_of k.current_running) ∷ block_queue m i ∷ waiters) moved.1
                (λ q h.
                  apart q (
                    ground
                      (arith, has-append q (m.ready_queue ∷ ready) (m.sleep_queue ∷ sleeping))))
                s.queued.sleep_ring;
          apart = s.queued.apart;
          valid = s.queued.valid;
        };
        waiting = λ q h. ground (arith, s.waiting q h, not_self m k s run q h);
        asleep = λ q h. ground (arith, s.asleep q h);
        current = λ on. ground arith;
      }

      blocked : status_of (waiting m i l k) k.current_running ≡ task_blocked
      unfolding do_block
      blocked = ground arith

      waiting-stopped : requeued (waiting m i l k) ≡ []
      unfolding do_block
      waiting-stopped = ground arith

      waiting-lock : get_elem? (waiting m i l k).mlocks i ≡ some (record l { status = locked })
      unfolding do_block
      waiting-lock = get_elem?-set_self k.mlocks i (record l { status = locked }) x.lock

      waiting-cpu :
          ((waiting m i l k).current_running ≡ k.current_running) × ((waiting m i l k).cpu ≡ k.cpu)
      unfolding do_block
      waiting-cpu = (refl, refl)

      -- After the turn the caller is still blocked.
      still_blocked :
          (k1 k' : Kernel)
          → Woke m
              (waiting m i l k)
              k1
              (queues m ready sleeping)
              ready
              (wakers m (waiting m i l k) sleeping)
              (sleepers m (waiting m i l k) sleeping)
          → Turn m k1 k'
              (ready ++ wakers m (waiting m i l k) sleeping)
              (sleepers m (waiting m i l k) sleeping)
          → status_of k' k.current_running ≡ task_blocked
      still_blocked k1 k' o turn =
          let self = list_of k.current_running in
          let asleep : has self (wakers m (waiting m i l k) sleeping) ≡ false =
            ground (arith, woke waiting-IsSched o self, (s.current run).1) in
          let before : status_of k1 k.current_running ≡ task_blocked =
            ap (λ t. t.status) (o.tasks k.current_running) ∙ rw asleep blocked in
          Turn-status m k1 k' (ready ++ wakers m (waiting m i l k) sleeping) _ k.current_running
            (Woke-IsSched waiting-IsSched o) turn
            (ground (
              arith,
              (s.current run).1,
              has-append self ready (wakers m (waiting m i l k) sleeping),
            ))
            (ap is_running before)
          ∙ before

      -- From a state in which the scheduler's queues and the mutex's are rings of their own, with
      -- the ready, sleeping and waiting tasks on them, acquiring a mutex that is in use and taken,
      -- by a running caller that does not wait for it, ends (given more fuel than sleepers): the
      -- caller is blocked at the end of the mutex's block queue with the lock still taken, and
      -- then the sleepers that are due are woken and a turn of the scheduler is taken; after it
      -- the caller is still blocked, the lock is still taken, and the block queue is the one
      -- before with the caller at its end.
      pub acquire_busy-Turn :
          length sleeping < m.fuel
          → (k1 : Kernel) × (k' : Kernel) × (do_mutex_lock_acquire m (pos i) k ≡ some k')
            × (status_of k' k.current_running ≡ task_blocked)
            × (get_elem? k'.mlocks i ≡ some (record l { status = locked }))
            × IsRing k'.links (block_queue m i) (waiters ++ (list_of k.current_running) ∷ [])
            × Woke m
                (waiting m i l k)
                k1
                (queues m ready sleeping)
                ready
                (wakers m (waiting m i l k) sleeping)
                (sleepers m (waiting m i l k) sleeping)
            × Turn m k1 k'
                (ready ++ wakers m (waiting m i l k) sleeping)
                (sleepers m (waiting m i l k) sleeping)
      acquire_busy-Turn enough =
          let (k1, k', goes, o, turn) =
            do_scheduler-Turn m (waiting m i l k) ready sleeping waiting-IsSched enough in
          let same =
            do_scheduler-SameOutside m (waiting m i l k) k1 k' ready sleeping waiting-IsSched o
              turn in
          (
            k1,
            k',
            acquire_busy ∙ goes,
            still_blocked k1 k' o turn,
            ap (λ ls. get_elem? ls i)
                  (Turn-mlocks m k1 k' (ready ++ wakers m (waiting m i l k) sleeping) _ turn
                    ∙ o.rest.mlocks)
                ∙ waiting-lock,
            IsRing-frame (queues m ready sleeping)
                (subst
                  (λ r. SameOutside (r ++ queues m ready sleeping) (waiting m i l k).links k'.links)
                  waiting-stopped same)
                (λ q h. ground (
                  arith,
                  x.apart q,
                  apart q,
                  has-append q waiters ((list_of k.current_running) ∷ []),
                ))
                moved.0,
            o,
            turn,
          )

-- With nobody ready and nobody due, acquiring a mutex that is taken returns at once to the caller,
-- which goes on running on its own stack while the lock is still taken.
pub acquire_alone :
    (m : Machine) (k : Kernel) (sleeping : List Ptr) (i : ℕ) (l : MutexLock) (waiters : List Ptr)
    (s : IsSched m k [] sleeping) (x : IsMutex m k [] sleeping i l waiters)
    (busy : l.status ≡ locked)
    → is_running (status_of k k.current_running) ≡ true
    → has (list_of k.current_running) (block_queue m i ∷ waiters) ≡ false
    → length sleeping < m.fuel
    → wakers m (waiting m i l k) sleeping ≡ []
    → (k' : Kernel) × (do_mutex_lock_acquire m (pos i) k ≡ some k')
      × (k'.current_running ≡ k.current_running)
      × (k'.cpu ≡ k.cpu)
      × (get_elem? k'.mlocks i ≡ some (record l { status = locked }))
acquire_alone m k sleeping i l waiters s x busy run off enough nobody =
    let k0 = waiting m i l k in
    let (k', goes, cur, cpu, locks, same) =
      turn_alone m k0 sleeping (waiting-IsSched m k i l waiters s x busy run off) enough nobody in
    (
      k',
      acquire_busy m k i l waiters s x busy ∙ goes,
      cur ∙ (waiting-cpu m k i l waiters s x busy run off).0,
      cpu ∙ (waiting-cpu m k i l waiters s x busy run off).1,
      ap (λ ls. get_elem? ls i) locks ∙ waiting-lock m k i l waiters s x busy run off,
    )
