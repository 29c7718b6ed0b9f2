-- ===== src/Sched/Schedule.antt =====
-- kernel/sched/sched.c: `do_scheduler` from the choice of the next task on is a round robin.
use mathlib.Core.Path.{subst}
use ucas_oslab_project.Common.{
  ◌≤◌, ◌≡◌, refl, sym, ◌∙◌, inl, inr, true, false, List, ◌∷◌, ◌++◌, arith, ◌==◌, ◌&&◌,
  if◌then◌else◌, Bool-cases, has, has-append,
}
use ucas_oslab_project.LinkedList.{Ptr, list_empty}
use ucas_oslab_project.LinkedList.Chain.{SameOutside, SameOutside-trans, SameOutside-mono}
use ucas_oslab_project.LinkedList.Grow.{list_add_tail-IsRing}
use ucas_oslab_project.LinkedList.Remove.{IsDetached}
use ucas_oslab_project.Kernel.{
  task_blocked, task_running, task_ready, Machine, Kernel, list_of, list_entry, is_running,
}
use ucas_oslab_project.Sched.{switch_to, save_context, load_context, enqueue_running, schedule}
use ucas_oslab_project.Sched.Sleep.{IsQueued}
use ucas_oslab_project.Sched.Dispatch.{
  status_of, IsOff, IsSched, requeued, switch_to-links, switch_to-current, switch_to-status,
  enqueue-IsQueued, dispatched, node_of, dispatch-dispatched, deleted, dispatched-IsQueued,
  dispatched-IsOff, IsQueued-links,
}

-- The run of `do_scheduler` from `k` to `k'` that takes `x` off a ready queue `x ∷ xs`.
pub record Scheduled (m : Machine) (k k' : Kernel) (x : Ptr) (xs sleeping : List Ptr) : Type 0 where
  pub current : k'.current_running ≡ list_entry x
  pub runs : status_of k' (list_entry x) ≡ task_running
  pub inv : IsSched m k' (xs ++ requeued k) sleeping
  pub previous :
      is_running (status_of k k.current_running) ≡ true
      → status_of k' k.current_running ≡ task_ready
  pub others :
      (p : Ptr)
      → (p == list_entry x) ≡ false
      → (is_running (status_of k k.current_running) && p == k.current_running) ≡ false
      → status_of k' p ≡ status_of k p
  pub mlocks : k'.mlocks ≡ k.mlocks
  pub same : SameOutside (requeued k ++ m.ready_queue ∷ x ∷ xs) k.links k'.links

module _ (m : Machine) (k : Kernel) (x : Ptr) {xs sleeping : List Ptr}
    (s : IsSched m k (x ∷ xs) sleeping) where
  abbrev pub k1 : Kernel
  k1 = enqueue_running m k.current_running k

  abbrev pub result : Kernel
  result = switch_to k.current_running (list_entry x) (dispatched x k1)

  queued1 : IsQueued m k1 (x ∷ xs ++ requeued k) sleeping
  queued1 = enqueue-IsQueued m k s

  pub schedule-result : schedule m k ≡ result
  unfolding schedule list_empty
  schedule-result =
      let some_ready : (k.links.next m.ready_queue == m.ready_queue) ≡ false =
        ground (arith, s.queued.ready_ring.chain, s.queued.ready_ring.distinct) in
      rw some_ready (rw (dispatch-dispatched m k1 x queued1))

  status1 :
      (p : Ptr)
      → status_of k1 p ≡ (
          if is_running (status_of k k.current_running) && p == k.current_running
          then task_ready
          else status_of k p)
  unfolding enqueue_running
  status1 p = ground arith

  status2 :
      (p : Ptr) → status_of result p ≡ (if p == list_entry x then task_running else status_of k1 p)
  status2 p = switch_to-status k.current_running (list_entry x) (dispatched x k1) p ∙ ground arith

  abbrev touched : List Ptr
  touched = requeued k ++ m.ready_queue ∷ x ∷ xs

  same1 : SameOutside touched k.links k1.links
  unfolding enqueue_running
  same1 q out = elim (Bool-cases (is_running (status_of k k.current_running))) [
    | inl run ↦ rw run (
        (list_add_tail-IsRing (list_of k.current_running) s.queued.ready_ring (s.current run).1.0).1
          q (ground arith))
    | inr not ↦ rw not (refl, refl)
  ]

  not_sleeping : (q : Ptr) → has q sleeping ≡ true → (q == x) ≡ false
  not_sleeping q i = ground (arith, s.queued.apart x)

  at :
      (q : Ptr)
      → 16 ≤ q
      → (q == x) ≡ false
      → status_of result (list_entry q) ≡ status_of k1 (list_entry q)
  at q v ne =
      let v' : 16 ≤ x = s.queued.valid x (ground arith) in ground (arith, status2 (list_entry q))

  waiting1 : (q : Ptr) → has q (xs ++ requeued k) ≡ true → status_of k1 (list_entry q) ≡ task_ready
  waiting1 q i = elim (Bool-cases (is_running (status_of k k.current_running))) [
    | inl run ↦ ground (arith, status1 (list_entry q), s.waiting q, has-append q xs (requeued k))
    | inr not ↦ ground (arith, status1 (list_entry q), s.waiting q, has-append q xs (requeued k))
  ]

  asleep1 : (q : Ptr) → has q sleeping ≡ true → status_of k1 (list_entry q) ≡ task_blocked
  asleep1 q i =
      let v : 16 ≤ q = s.queued.valid q (ground (arith, has-append q (x ∷ xs) sleeping)) in
      elim (Bool-cases (is_running (status_of k k.current_running))) [
        | inl run ↦ ground (arith, status1 (list_entry q), s.asleep q, (s.current run).1.1)
        | inr not ↦ ground (arith, status1 (list_entry q), s.asleep q)
      ]

  in_charge_at :
      (n : Ptr)
      → n ≡ x
      → IsDetached (dispatched x k1).links n × IsOff m (xs ++ requeued k) sleeping n
  in_charge_at n e =
      subst (λ a. IsDetached (dispatched x k1).links a × IsOff m (xs ++ requeued k) sleeping a)
        (sym e) ((deleted m k1 x queued1).1, dispatched-IsOff m k1 x queued1)

  in_charge :
      IsDetached result.links (list_of result.current_running)
      × IsOff m (xs ++ requeued k) sleeping (list_of result.current_running)
  unfolding switch_to save_context load_context
  in_charge = in_charge_at (list_of (list_entry x)) (node_of m k1 x queued1)

  previous1 :
      is_running (status_of k k.current_running) ≡ true
      → status_of result k.current_running ≡ task_ready
  previous1 run =
      let v : 16 ≤ x = s.queued.valid x (ground arith) in
      ground (arith, status2 k.current_running, status1 k.current_running, (s.current run).1.0)

  same2 : SameOutside touched k1.links (dispatched x k1).links
  same2 =
      SameOutside-mono (m.ready_queue ∷ x ∷ xs ++ requeued k) touched
        (λ q out. elim (Bool-cases (is_running (status_of k k.current_running))) [
          | inl run ↦ ground (arith, has-append q xs (requeued k))
          | inr not ↦ ground (arith, has-append q xs (requeued k))
        ])
        (deleted m k1 x queued1).2

  result-mlocks : result.mlocks ≡ k.mlocks
  unfolding switch_to save_context load_context enqueue_running
  result-mlocks = elim (Bool-cases (is_running (status_of k k.current_running))) [
    | inl run ↦ rw run refl
    | inr not ↦ rw not refl
  ]

  pub schedule-Scheduled : Scheduled m k result x xs sleeping
  schedule-Scheduled = record {
    current = switch_to-current _ _ (dispatched x k1);
    runs = ground (arith, status2 (list_entry x));
    inv = record {
      queued =
          IsQueued-links (switch_to-links _ _ (dispatched x k1))
            (dispatched-IsQueued m k1 x queued1);
      waiting = λ q i.
          at q (queued1.valid q (ground (arith, has-append q (x ∷ xs ++ requeued k) sleeping)))
            (ground (arith, queued1.ready_ring.distinct))
          ∙ waiting1 q i;
      asleep = λ q i.
          at q (s.queued.valid q (ground (arith, has-append q (x ∷ xs) sleeping)))
            (not_sleeping q i)
          ∙ asleep1 q i;
      current = λ run. in_charge;
    };
    previous = previous1;
    others = λ p nx nc. ground (arith, status2 p, status1 p);
    mlocks = result-mlocks;
    same =
        rw (switch_to-links k.current_running (list_entry x) (dispatched x k1))
          (SameOutside-trans touched same1 same2);
  }
