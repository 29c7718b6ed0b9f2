-- ===== src/Sched/Dispatch.antt =====
-- kernel/sched/sched.c: what holds between two turns of the scheduler, and the queues when it dispatches.
use mathlib.Core.List.{append-nil}
use ucas_oslab_project.Common.{
  ◌≡◌, refl, inl, inr, true, false, List, [], ◌∷◌, ◌++◌, arith, if◌then◌else◌, Bool-cases, has,
  has-append,
}
use ucas_oslab_project.LinkedList.{Ptr, list_del_init}
use ucas_oslab_project.LinkedList.Chain.{IsRing, SameOutside, IsRing-frame}
use ucas_oslab_project.LinkedList.Grow.{list_add_tail-IsRing}
use ucas_oslab_project.LinkedList.Remove.{IsDetached, removed, list_del_init-IsRing}
use ucas_oslab_project.Kernel.{
  TaskStatus, task_blocked, task_running, task_ready, Machine, Kernel, list_of, list_entry,
  set_status, is_running,
}
use ucas_oslab_project.Sched.{switch_to, save_context, load_context, enqueue_running, dispatch}
use ucas_oslab_project.Sched.Sleep.{IsQueued}

abbrev pub status_of : Kernel → Ptr → TaskStatus
status_of k p = (k.pcb p).status

-- A node on neither queue.
abbrev pub IsOff : Machine → List Ptr → List Ptr → Ptr → Type 0
IsOff m ready sleeping node =
    (has node (m.ready_queue ∷ ready) ≡ false) × (has node (m.sleep_queue ∷ sleeping) ≡ false)

-- What holds whenever `do_scheduler` is entered and left: the tasks of the ready queue are ready,
-- those of the sleep queue are blocked, and the current task, while it runs, is on no list.
pub record IsSched (m : Machine) (k : Kernel) (ready sleeping : List Ptr) : Type 0 where
  pub queued : IsQueued m k ready sleeping
  pub waiting : (q : Ptr) → has q ready ≡ true → status_of k (list_entry q) ≡ task_ready
  pub asleep : (q : Ptr) → has q sleeping ≡ true → status_of k (list_entry q) ≡ task_blocked
  pub current :
      is_running (status_of k k.current_running) ≡ true
      → IsDetached k.links (list_of k.current_running)
        × IsOff m ready sleeping (list_of k.current_running)

-- The current task's node, if `do_scheduler` puts it back on the ready queue.
abbrev pub requeued : Kernel → List Ptr
requeued k =
    if is_running (status_of k k.current_running) then list_of k.current_running ∷ [] else []

pub switch_to-links : (prev next : Ptr) (k : Kernel) → (switch_to prev next k).links ≡ k.links
unfolding switch_to save_context load_context
switch_to-links prev next k = refl

pub switch_to-current :
    (prev next : Ptr) (k : Kernel) → (switch_to prev next k).current_running ≡ k.current_running
unfolding switch_to save_context load_context
switch_to-current prev next k = refl

pub switch_to-status :
    (prev next : Ptr) (k : Kernel) (p : Ptr) → status_of (switch_to prev next k) p ≡ status_of k p
unfolding switch_to save_context load_context
switch_to-status prev next k p = ground arith

module _ (m : Machine) (k : Kernel) {ready sleeping : List Ptr}
    (s : IsSched m k ready sleeping) where
  pub enqueue-IsQueued :
      IsQueued m (enqueue_running m k.current_running k) (ready ++ requeued k) sleeping
  unfolding enqueue_running
  enqueue-IsQueued = elim (Bool-cases (is_running (status_of k k.current_running))) [
    | inl run ↦ rw run (
        let (detached, off) = s.current run in
        let (ring, same) =
          list_add_tail-IsRing (list_of k.current_running) s.queued.ready_ring off.0 in
        record {
          ready_ring = ring;
          sleep_ring =
              IsRing-frame (list_of k.current_running ∷ m.ready_queue ∷ ready) same
                (λ q i. ground (arith, s.queued.apart q)) s.queued.sleep_ring;
          apart = λ q i.
              ground (arith, s.queued.apart q, has-append q ready (list_of k.current_running ∷ []));
          valid = λ q i. ground (
            arith,
            s.queued.valid q,
            has-append q (ready ++ list_of k.current_running ∷ []) sleeping,
            has-append q ready (list_of k.current_running ∷ []),
            has-append q ready sleeping,
          );
        })
    | inr not ↦ rw (not, append-nil) s.queued
  ]

-- What `dispatch` does where the ready queue begins with `x`.
abbrev pub dispatched : Ptr → Kernel → Kernel
dispatched x k =
    let k1 = record k { current_running = list_entry x } in
    let k2 = set_status (list_entry x) task_running k1 in
    record k2 { links = list_del_init x k2.links }

module _ (m : Machine) (k : Kernel) (x : Ptr) {ys sleeping : List Ptr}
    (q : IsQueued m k (x ∷ ys) sleeping) where
  pub node_of : list_of (list_entry x) ≡ x
  node_of = omega (arith, q.valid x (ground arith))

  pub dispatch-dispatched : dispatch m k ≡ dispatched x k
  unfolding dispatch
  dispatch-dispatched = rw (q.ready_ring.chain.0, node_of)

  pub deleted :
      IsRing (list_del_init x k.links) m.ready_queue ys
      × IsDetached (list_del_init x k.links) x
      × SameOutside (m.ready_queue ∷ x ∷ ys) k.links (list_del_init x k.links)
  deleted = list_del_init-IsRing [] x ys q.ready_ring

  pub dispatched-IsQueued : IsQueued m (dispatched x k) ys sleeping
  dispatched-IsQueued = record {
    ready_ring = deleted.0;
    sleep_ring =
        IsRing-frame (m.ready_queue ∷ x ∷ ys) deleted.2 (λ a i. ground (arith, q.apart a))
          q.sleep_ring;
    apart = λ a i. q.apart a (ground arith);
    valid = λ a i. q.valid a (ground arith);
  }

  pub dispatched-IsOff : IsOff m ys sleeping x
  dispatched-IsOff = (removed [] x ys q.ready_ring, q.apart x (ground arith))

pub IsQueued-links :
    {m : Machine} {k k' : Kernel} {ready sleeping : List Ptr}
    → k'.links ≡ k.links
    → IsQueued m k ready sleeping
    → IsQueued m k' ready sleeping
IsQueued-links e q = record {
  ready_ring = rw e q.ready_ring;
  sleep_ring = rw e q.sleep_ring;
  apart = q.apart;
  valid = q.valid;
}
