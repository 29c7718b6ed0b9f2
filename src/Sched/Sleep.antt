-- ===== src/Sched/Sleep.antt =====
-- kernel/sched/time.c: what `check_sleeping` does to the two queues.
use mathlib.Core.List.{append_assoc, append-nil}
use ucas_oslab_project.Common.{
  ℕ, zero, suc, ◌≤◌, ◌<◌, ◌≡◌, refl, ap, ◌∙◌, inl, inr, true, false, some, List, [], ◌∷◌, ◌++◌,
  arith, ◌==◌, Bool-cases, length, has, has-append, Disjoint,
}
use ucas_oslab_project.LinkedList.{Ptr}
use ucas_oslab_project.LinkedList.Chain.{
  IsRing, SameOutside, SameOutside-trans, head_or, Chain-ends, Chain-split,
}
use ucas_oslab_project.LinkedList.Remove.{removed}
use ucas_oslab_project.LinkedList.Move.{both, list_move_tail-IsRing}
use ucas_oslab_project.Kernel.{Machine, Kernel, list_entry}
use ucas_oslab_project.Sched.{get_ticks, get_timer, do_unblock, sleep_loop, check_sleeping}
use ucas_oslab_project.Sched.Wake.{
  SameRest-refl, SameRest-trans, due, woken, kept, Woke, Ticked, Ticked-due, Ticked-not_due, is_due,
  wake_up-due, wake_up-not_due, get_timer-rest, do_unblock-rest, unblock-tasks, sleep_loop-end,
  sleep_loop-step,
}

module _ (m : Machine) (base : ℕ) (w : Ptr → ℕ) (ws : List Ptr) where
  -- The walk in state `k` has passed the nodes `pre` of the sleep queue, and `xs` are to come.
  record Before (k : Kernel) (r : ℕ) (pre xs ready : List Ptr) : Type 0 where
    reads : k.reads ≡ r
    base_same : k.time_base ≡ base
    wakeup_same : (p : Ptr) → (k.pcb p).wakeup_time ≡ w p
    sleep_ring : IsRing k.links m.sleep_queue (pre ++ xs)
    ready_ring : IsRing k.links m.ready_queue ready
    apart : Disjoint (m.ready_queue ∷ ready) (m.sleep_queue ∷ pre ++ xs)
    covers :
        (q : Ptr)
        → has q ws ≡ false
        → (has q (m.ready_queue ∷ ready) ≡ false) × (has q (m.sleep_queue ∷ pre ++ xs) ≡ false)
    valid : (q : Ptr) → has q (pre ++ xs) ≡ true → 16 ≤ q

  module _ {k : Kernel} {r : ℕ} {x : Ptr} {xs ready : List Ptr} (pre : List Ptr)
      (b : Before k r pre (x ∷ xs) ready) where
    is_due-due : is_due m x k ≡ due m base w r x
    is_due-due = ground (arith, b.reads, b.base_same, b.wakeup_same (list_entry x))

    moved :
        let l = (do_unblock m x (get_timer m k).1).links in
        IsRing l m.sleep_queue (pre ++ xs)
        × IsRing l m.ready_queue (ready ++ x ∷ [])
        × SameOutside (both m.sleep_queue pre x xs m.ready_queue ready) k.links l
    unfolding do_unblock get_timer get_ticks
    moved = list_move_tail-IsRing pre x xs b.sleep_ring ready b.ready_ring b.apart

    moved-same : SameOutside ws k.links (do_unblock m x (get_timer m k).1).links
    moved-same q out = moved.2 q (
        ground
          (arith, b.covers q, has-append q (m.sleep_queue ∷ pre ++ x ∷ xs) (m.ready_queue ∷ ready)))

    not_head : (x == m.sleep_queue) ≡ false
    not_head = ground (arith, b.sleep_ring.distinct, has-append m.sleep_queue pre (x ∷ xs))

    next_head : k.links.next x ≡ head_or xs m.sleep_queue
    next_head =
        (Chain-ends k.links x xs m.sleep_queue
          (Chain-split k.links m.sleep_queue pre x xs m.sleep_queue b.sleep_ring.chain).1).0

    step-due : Before (do_unblock m x (get_timer m k).1) (suc r) pre xs (ready ++ x ∷ [])
    unfolding do_unblock get_timer get_ticks
    step-due = record {
      reads = omega (arith, b.reads);
      base_same = b.base_same;
      wakeup_same = λ p. ground (arith, b.wakeup_same p);
      sleep_ring = moved.0;
      ready_ring = moved.1;
      apart = λ q i. ground (
        arith,
        b.apart q,
        removed pre x xs b.sleep_ring,
        has-append q ready (x ∷ []),
        has-append q pre xs,
        has-append q pre (x ∷ xs),
      );
      covers = λ q i. ground (
        arith,
        b.covers q i,
        has-append q ready (x ∷ []),
        has-append q pre xs,
        has-append q pre (x ∷ xs),
      );
      valid = λ q i. b.valid q (ground (arith, has-append q pre xs, has-append q pre (x ∷ xs)));
    }

    step-not_due : Before (get_timer m k).1 (suc r) (pre ++ x ∷ []) xs ready
    unfolding get_timer get_ticks
    step-not_due = record {
      reads = omega (arith, b.reads);
      base_same = b.base_same;
      wakeup_same = b.wakeup_same;
      sleep_ring = rw append_assoc b.sleep_ring;
      ready_ring = b.ready_ring;
      apart = rw append_assoc b.apart;
      covers = rw append_assoc b.covers;
      valid = rw append_assoc b.valid;
    }

    Woke-due :
        {k' : Kernel} {up asleep : List Ptr}
        → Woke m (do_unblock m x (get_timer m k).1) k' ws (ready ++ x ∷ []) up asleep
        → Woke m k k' ws ready (x ∷ up) asleep
    Woke-due {up} o = record {
      ready_ring = rw append_assoc at o.ready_ring;
      sleep_ring = o.sleep_ring;
      same = SameOutside-trans ws moved-same o.same;
      tasks = λ p.
          o.tasks p
          ∙ unblock-tasks m x k up (b.valid x (ground (arith, has-append x pre (x ∷ xs)))) p;
      rest = SameRest-trans (SameRest-trans (get_timer-rest m x k) (do_unblock-rest m x _)) o.rest;
    }

    Woke-not_due :
        {k' : Kernel} {up asleep : List Ptr}
        → Woke m (get_timer m k).1 k' ws ready up asleep
        → Woke m k k' ws ready up asleep
    unfolding get_timer get_ticks
    Woke-not_due o = record {
      ready_ring = o.ready_ring;
      sleep_ring = o.sleep_ring;
      same = o.same;
      tasks = o.tasks;
      rest = SameRest-trans (get_timer-rest m x k) o.rest;
    }

  sleep_loop-Woke :
      (fuel : ℕ) (k : Kernel) (r : ℕ) (pre xs ready : List Ptr)
      → Before k r pre xs ready
      → length xs < fuel
      → (k' : Kernel) × (sleep_loop m fuel
            (head_or xs m.sleep_queue)
            (k.links.next (head_or xs m.sleep_queue))
            k
          ≡ some k')
        × Woke m k k' ws ready (woken m base w r xs) (pre ++ kept m base w r xs)
        × Ticked m k k' (length xs)
  sleep_loop-Woke zero k r pre xs ready b enough = absurd (omega arith)
  sleep_loop-Woke (suc fuel) k r pre [] ready b enough = (
    k,
    sleep_loop-end m fuel _ k,
    record {
      ready_ring = rw append-nil b.ready_ring;
      sleep_ring = b.sleep_ring;
      same = λ q out. (refl, refl);
      tasks = λ p. refl;
      rest = SameRest-refl k;
    },
    (refl, refl),
  )
  sleep_loop-Woke (suc fuel) k r pre (x ∷ xs) ready b enough =
      elim (Bool-cases (due m base w r x)) [
        | inl now ↦
            let (k', goes, o, ticked) =
              sleep_loop-Woke fuel _ (suc r) pre xs _ (step-due pre b) (omega arith) in
            (
              k',
              sleep_loop-step m fuel x _ k _ (not_head pre b)
                  (wake_up-due m x k (is_due-due pre b ∙ now)) (next_head pre b) goes,
              rw now (Woke-due pre b o),
              Ticked-due m x k k' (length xs) ticked,
            )
        | inr later ↦
            let (k', goes, o, ticked) =
              sleep_loop-Woke fuel _ (suc r) (pre ++ x ∷ []) xs ready (step-not_due pre b)
                (omega arith) in
            (
              k',
              sleep_loop-step m fuel x _ k _ (not_head pre b)
                  (wake_up-not_due m x k (is_due-due pre b ∙ later)) (next_head pre b) goes,
              rw later (Woke-not_due pre b (rw append_assoc at o)),
              Ticked-not_due m x k k' (length xs) ticked,
            )
      ]

-- The two queues are rings of their own, and hold nodes of task blocks.
pub record IsQueued (m : Machine) (k : Kernel) (ready sleeping : List Ptr) : Type 0 where
  pub ready_ring : IsRing k.links m.ready_queue ready
  pub sleep_ring : IsRing k.links m.sleep_queue sleeping
  pub apart : Disjoint (m.ready_queue ∷ ready) (m.sleep_queue ∷ sleeping)
  pub valid : (q : Ptr) → has q (ready ++ sleeping) ≡ true → 16 ≤ q

-- The sleepers that are due, each by its own read of the clock, and the others.
abbrev pub wakers : Machine → Kernel → List Ptr → List Ptr
wakers m k = woken m k.time_base (λ p. (k.pcb p).wakeup_time) k.reads

abbrev pub sleepers : Machine → Kernel → List Ptr → List Ptr
sleepers m k = kept m k.time_base (λ p. (k.pcb p).wakeup_time) k.reads

-- check_sleeping, from a state in which the two queues are rings, of nodes of task blocks, without
-- a node in common, ends (given more fuel than sleepers), moves exactly the sleepers whose wake-up
-- time is not after their own read of the clock to the end of the ready queue, in order, makes
-- them ready, and keeps the others in order; it reads the clock once for each sleeper, leaves the
-- last reading in time_elapsed (as it was, if nobody sleeps), and changes no other task, no list
-- node but those of the two queues, and no other variable.
pub check_sleeping-Woke :
    (m : Machine) (k : Kernel) (ready sleeping : List Ptr)
    → IsQueued m k ready sleeping
    → length sleeping < m.fuel
    → (k' : Kernel) × (check_sleeping m k ≡ some k')
      × Woke m k k'
          ((m.ready_queue ∷ ready) ++ m.sleep_queue ∷ sleeping)
          ready
          (wakers m k sleeping)
          (sleepers m k sleeping)
      × Ticked m k k' (length sleeping)
unfolding check_sleeping
check_sleeping-Woke m k ready sleeping q enough =
    let (k', goes, o, ticked) =
      sleep_loop-Woke m k.time_base (λ p. (k.pcb p).wakeup_time)
        ((m.ready_queue ∷ ready) ++ m.sleep_queue ∷ sleeping) m.fuel k k.reads [] sleeping ready
        (record {
          reads = refl;
          base_same = refl;
          wakeup_same = λ p. refl;
          sleep_ring = q.sleep_ring;
          ready_ring = q.ready_ring;
          apart = q.apart;
          covers = λ a out.
              ground (arith, has-append a (m.ready_queue ∷ ready) (m.sleep_queue ∷ sleeping));
          valid = λ a i. q.valid a (ground (arith, has-append a ready sleeping));
        })
        enough in
    (
      k',
      ap (λ a. sleep_loop m m.fuel a (k.links.next a) k)
            (Chain-ends k.links m.sleep_queue sleeping m.sleep_queue q.sleep_ring.chain).0
          ∙ goes,
      o,
      ticked,
    )
