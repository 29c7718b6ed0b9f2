-- ===== src/Threads/Yield.antt =====
-- kernel/sched/thread.c: `do_thread_yield` takes turns along the ring of a task's threads.
use mathlib.Core.Path.{subst}
use ucas_oslab_project.Common.{
  sym, ◌≤◌, ◌≡◌, ap, ◌∙◌, if◌then◌else◌, ◌==◌, true, false, List, [], ◌∷◌, ◌++◌, arith, has,
  has-append, Distinct-snoc, has_ne,
}
use ucas_oslab_project.LinkedList.{Ptr, Links, init_list_head}
use ucas_oslab_project.LinkedList.Chain.{IsRing, IsRing-frame, Chain-join}
use ucas_oslab_project.LinkedList.Grow.{init_list_head-SameOutside}
use ucas_oslab_project.LinkedList.Remove.{IsDetached}
use ucas_oslab_project.Kernel.{
  task_running, task_ready, Machine, Kernel, list_of, list_entry, thread_group_of, group_entry,
  is_running,
}
use ucas_oslab_project.Sched.{switch_to, save_context, load_context}
use ucas_oslab_project.Sched.Dispatch.{switch_to-status, status_of, IsSched, IsOff}
use ucas_oslab_project.Threads.{pass_on, do_thread_yield}

-- The ring of a node, seen from the next one.
rotate : {l : Links} {h x : Ptr} {xs : List Ptr} → IsRing l h (x ∷ xs) → IsRing l x (xs ++ h ∷ [])
rotate {l} {h} {x} {xs} r = record {
  chain = Chain-join l x xs h [] x r.chain.2 (r.chain.0, r.chain.1);
  distinct = Distinct-snoc (x ∷ xs) h r.distinct.1 r.distinct.0;
}

-- A turn from the current thread of `k` to the one with the group node `t`.
pub record Yielded (m : Machine) (k k' : Kernel) (ready sleeping : List Ptr) (t : Ptr)
    (ts : List Ptr) : Type 0 where
  pub current : k'.current_running ≡ group_entry t
  pub running : is_running (status_of k' (group_entry t)) ≡ true
  pub previous : status_of k' k.current_running ≡ task_ready
  pub group : IsRing k'.links t (ts ++ thread_group_of k.current_running ∷ [])
  pub sched : IsSched m k' ready sleeping

init_list_head-IsDetached : (p : Ptr) (l : Links) → IsDetached (init_list_head p l) p
unfolding init_list_head
init_list_head-IsDetached p l = (ground arith, ground arith)

module _ (m : Machine) (k : Kernel) {ready sleeping : List Ptr} (s : IsSched m k ready sleeping)
    (t : Ptr) (ts : List Ptr) (ring : IsRing k.links (thread_group_of k.current_running) (t ∷ ts))
    (valid : 56 ≤ t) (off : IsOff m ready sleeping (list_of (group_entry t)))
    (run : is_running (status_of k k.current_running) ≡ true)
    (spared : has (list_of (group_entry t)) (thread_group_of k.current_running ∷ t ∷ ts)
      ≡ false) where
  next_is : group_entry (k.links.next (thread_group_of k.current_running)) ≡ group_entry t
  next_is = ground (arith, ring.chain.0)

  other : (group_entry t == k.current_running) ≡ false
  other = ground (arith, ring.distinct.0)

  yield-links : (do_thread_yield k).links ≡ init_list_head (list_of (group_entry t)) k.links
  unfolding do_thread_yield pass_on switch_to save_context load_context
  yield-links = ap (λ p. init_list_head (list_of p) k.links) next_is

  yield-current : (do_thread_yield k).current_running ≡ group_entry t
  unfolding do_thread_yield pass_on switch_to save_context load_context
  yield-current = next_is

  yield-status :
      (p : Ptr)
      → status_of (do_thread_yield k) p ≡ (
          if p == group_entry t
          then task_running
          else if p == k.current_running
          then task_ready
          else status_of k p)
  unfolding do_thread_yield pass_on
  yield-status p =
      switch_to-status k.current_running (pass_on k).current_running (pass_on k) p ∙ passed p
    where
      passed :
          (p : Ptr)
          → status_of (pass_on k) p ≡ (
              if p == group_entry t
              then task_running
              else if p == k.current_running
              then task_ready
              else status_of k p)
      passed p = ground (arith, next_is)

  frame :
      {h : Ptr} {xs : List Ptr}
      → has (list_of (group_entry t)) (h ∷ xs) ≡ false
      → IsRing k.links h xs
      → IsRing (do_thread_yield k).links h xs
  frame {h} {xs} out r = rw yield-links (
      IsRing-frame (list_of (group_entry t) ∷ [])
        (init_list_head-SameOutside (list_of (group_entry t)) k.links)
        (λ q i. ground (arith, has_ne (list_of (group_entry t)) q (h ∷ xs))) r)

  not_current :
      (q : Ptr) → 16 ≤ q → has q sleeping ≡ true → (list_entry q == k.current_running) ≡ false
  not_current q v i = ground (arith, (s.current run).1.1)

  yield-IsSched : IsSched m (do_thread_yield k) ready sleeping
  yield-IsSched = record {
    queued = record {
      ready_ring = frame off.0 s.queued.ready_ring;
      sleep_ring = frame off.1 s.queued.sleep_ring;
      apart = s.queued.apart;
      valid = s.queued.valid;
    };
    waiting = λ q i.
        let v : 16 ≤ q = s.queued.valid q (ground (arith, has-append q ready sleeping)) in
        ground (arith, yield-status (list_entry q), s.waiting q i, off.0);
    asleep = λ q i.
        let v : 16 ≤ q = s.queued.valid q (ground (arith, has-append q ready sleeping)) in
        ground (arith, yield-status (list_entry q), s.asleep q i, not_current q v i, off.1);
    current = λ on.
        subst
          (λ p.
            IsDetached (do_thread_yield k).links (list_of p) × IsOff m ready sleeping (list_of p))
          (sym yield-current)
          (
            subst (λ l. IsDetached l (list_of (group_entry t))) (sym yield-links)
                (init_list_head-IsDetached (list_of (group_entry t)) k.links),
            off,
          );
  }

  -- do_thread_yield of a running thread makes the next thread of its group the running current one
  -- and the caller ready, moves the group's ring on by one thread and keeps the scheduler's
  -- invariant, if the next thread is on neither queue and its list node is not on the group's
  -- ring.
  pub do_thread_yield-Yielded : Yielded m k (do_thread_yield k) ready sleeping t ts
  do_thread_yield-Yielded = record {
    current = yield-current;
    running = ground (arith, yield-status (group_entry t));
    previous = ground (arith, yield-status k.current_running, other);
    group = rotate (frame spared ring);
    sched = yield-IsSched;
  }
