-- ===== src/Locking/HandOff.antt =====
-- kernel/locking/lock.c: a release hands the lock to the task that has waited longest.
use ucas_oslab_project.Common.{
  ℕ, ◌≤◌, ◌≡◌, refl, ◌∙◌, true, false, some, List, [], ◌∷◌, ◌++◌, arith, ◌==◌, has, has-append,
}
use ucas_oslab_project.Common.Int.{pos}
use ucas_oslab_project.LinkedList.{Ptr, list_empty}
use ucas_oslab_project.LinkedList.Chain.{IsRing, SameOutside, IsRing-frame}
use ucas_oslab_project.LinkedList.Move.{both, list_move_tail-IsRing}
use ucas_oslab_project.LinkedList.Remove.{IsDetached}
use ucas_oslab_project.Kernel.{
  task_blocked, task_ready, MutexLock, Machine, Kernel, list_of, list_entry, is_running,
  block_queue,
}
use ucas_oslab_project.Sched.{do_unblock}
use ucas_oslab_project.Sched.Dispatch.{status_of, IsOff, IsSched}
use ucas_oslab_project.Locking.{release, do_mutex_lock_release}
use ucas_oslab_project.Locking.Contend.{IsMutex, do_mutex_lock_release-release}

module _ (m : Machine) (k : Kernel) {ready sleeping : List Ptr} (i : ℕ) (l : MutexLock) (w : Ptr)
    (ws : List Ptr) (s : IsSched m k ready sleeping)
    (x : IsMutex m k ready sleeping i l (w ∷ ws)) where
  release-do_unblock : do_mutex_lock_release m (pos i) k ≡ some (do_unblock m w k)
  unfolding release list_empty
  release-do_unblock =
      let waited : (k.links.next (block_queue m i) == block_queue m i) ≡ false =
        ground (arith, x.queue.chain, x.queue.distinct) in
      do_mutex_lock_release-release m k i x.lock ∙ rw (x.keyed, waited, x.queue.chain.0)

  moved :
      let l' = (do_unblock m w k).links in
      IsRing l' (block_queue m i) ws
      × IsRing l' m.ready_queue (ready ++ w ∷ [])
      × SameOutside (both (block_queue m i) [] w ws m.ready_queue ready) k.links l'
  unfolding do_unblock
  moved = list_move_tail-IsRing [] w ws x.queue ready s.queued.ready_ring (λ q h.
      ground (arith, x.apart q, has-append q (m.ready_queue ∷ ready) (m.sleep_queue ∷ sleeping)))

  handed : status_of (do_unblock m w k) (list_entry w) ≡ task_ready
  unfolding do_unblock
  handed = ground arith

  asleep1 :
      (q : Ptr) → has q sleeping ≡ true → status_of (do_unblock m w k) (list_entry q) ≡ task_blocked
  unfolding do_unblock
  asleep1 q h =
      let v : 16 ≤ q = s.queued.valid q (ground (arith, has-append q ready sleeping)) in
      let v' : 16 ≤ w = x.valid w (ground arith) in
      let out : has w (m.sleep_queue ∷ sleeping) ≡ false =
        ground
          (arith, x.apart w, has-append w (m.ready_queue ∷ ready) (m.sleep_queue ∷ sleeping)) in
      ground (arith, s.asleep q h)

  still_on :
      is_running (status_of (do_unblock m w k) k.current_running) ≡ true
      → is_running (status_of k k.current_running) ≡ true
  unfolding do_unblock
  still_on run = ground arith

  current1 :
      has (list_of k.current_running) (block_queue m i ∷ w ∷ ws) ≡ false
      → is_running (status_of (do_unblock m w k) k.current_running) ≡ true
      → IsDetached (do_unblock m w k).links (list_of k.current_running)
        × IsOff m (ready ++ w ∷ []) sleeping (list_of k.current_running)
  current1 off run =
      let on : is_running (status_of k k.current_running) ≡ true = still_on run in
      let (detached, apart) = s.current on in
      let n = list_of k.current_running in
      let same = moved.2 n (
        ground
          (arith, off, apart, has-append n (block_queue m i ∷ w ∷ ws) (m.ready_queue ∷ ready))) in
      (
        (same.0 ∙ detached.0, same.1 ∙ detached.1),
        (ground (arith, off, has-append n ready (w ∷ [])), apart.1),
      )

  -- Releasing a mutex that tasks wait for makes the longest-waiting one ready at the end of the
  -- ready queue, leaves the lock taken and the other waiters in order, and keeps the invariants of
  -- the mutex and of the scheduler.
  pub release-hand_off :
      has (list_of k.current_running) (block_queue m i ∷ w ∷ ws) ≡ false
      → (k' : Kernel) × (do_mutex_lock_release m (pos i) k ≡ some k')
        × (status_of k' (list_entry w) ≡ task_ready)
        × (k'.current_running ≡ k.current_running)
        × IsMutex m k' (ready ++ w ∷ []) sleeping i l ws
        × IsSched m k' (ready ++ w ∷ []) sleeping
  unfolding do_unblock
  release-hand_off off = (
    do_unblock m w k,
    release-do_unblock,
    handed,
    refl,
    record {
      lock = x.lock;
      keyed = x.keyed;
      queue = moved.0;
      free = λ e. cc (x.free e);
      apart = λ q h. ground (
        arith,
        x.apart q,
        x.queue.distinct,
        has-append q (m.ready_queue ∷ ready) (m.sleep_queue ∷ sleeping),
        has-append q (m.ready_queue ∷ ready ++ w ∷ []) (m.sleep_queue ∷ sleeping),
        has-append q ready (w ∷ []),
      );
      valid = λ q h. x.valid q (ground arith);
    },
    record {
      queued = record {
        ready_ring = moved.1;
        sleep_ring =
            IsRing-frame (both (block_queue m i) [] w ws m.ready_queue ready) moved.2
              (λ q h. ground (
                arith,
                x.apart q,
                s.queued.apart q,
                has-append q (m.ready_queue ∷ ready) (m.sleep_queue ∷ sleeping),
                has-append q (block_queue m i ∷ w ∷ ws) (m.ready_queue ∷ ready),
              ))
              s.queued.sleep_ring;
        apart = λ q h. ground (
          arith,
          s.queued.apart q,
          x.apart w,
          has-append w (m.ready_queue ∷ ready) (m.sleep_queue ∷ sleeping),
          has-append q ready (w ∷ []),
        );
        valid = λ q h. ground (
          arith,
          s.queued.valid q,
          x.valid q,
          has-append q ready sleeping,
          has-append q ready (w ∷ []),
          has-append q (ready ++ w ∷ []) sleeping,
        );
      };
      waiting = λ q h. ground (arith, s.waiting q, has-append q ready (w ∷ []));
      asleep = λ q h. asleep1 q h;
      current = λ run. current1 off run;
    },
  )
