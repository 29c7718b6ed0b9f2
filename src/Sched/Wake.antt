-- ===== src/Sched/Wake.antt =====
-- kernel/sched/time.c: one round of the walk of `check_sleeping`, and what it leaves alone.
use ucas_oslab_project.Common.{
  ℕ, zero, suc, ◌+◌, ◌≤◌, ◌≡◌, refl, ap, ◌∙◌, inl, inr, Bool, true, false, some, List, [], ◌∷◌,
  ◌++◌, arith, ◌==◌, leb, if◌then◌else◌, Bool-cases, has,
}
use ucas_oslab_project.LinkedList.{Ptr}
use ucas_oslab_project.LinkedList.Chain.{IsRing, SameOutside}
use ucas_oslab_project.Kernel.{task_ready, Machine, Kernel, list_of, list_entry}
use ucas_oslab_project.Sched.{get_ticks, get_timer, divu, do_unblock, wake_up, sleep_loop}

-- What no part of the walk touches.
pub record SameRest (k k' : Kernel) : Type 0 where
  pub current_running : k'.current_running ≡ k.current_running
  pub mlocks : k'.mlocks ≡ k.mlocks
  pub time_base : k'.time_base ≡ k.time_base
  pub kern_mem_curr : k'.kern_mem_curr ≡ k.kern_mem_curr
  pub user_mem_curr : k'.user_mem_curr ≡ k.user_mem_curr
  pub cpu : k'.cpu ≡ k.cpu
  pub stack : k'.stack ≡ k.stack

pub SameRest-refl : (k : Kernel) → SameRest k k
SameRest-refl k = record {
  current_running = refl;
  mlocks = refl;
  time_base = refl;
  kern_mem_curr = refl;
  user_mem_curr = refl;
  cpu = refl;
  stack = refl;
}

pub SameRest-trans : {a b c : Kernel} → SameRest a b → SameRest b c → SameRest a c
SameRest-trans p q = record {
  current_running = q.current_running ∙ p.current_running;
  mlocks = q.mlocks ∙ p.mlocks;
  time_base = q.time_base ∙ p.time_base;
  kern_mem_curr = q.kern_mem_curr ∙ p.kern_mem_curr;
  user_mem_curr = q.user_mem_curr ∙ p.user_mem_curr;
  cpu = q.cpu ∙ p.cpu;
  stack = q.stack ∙ p.stack;
}

-- Whether a task that wakes at `w p` is due at the `r`-th read of the clock, and who of a queue
-- is woken and who stays when the walk begins at that read: one read for each task.
abbrev pub due : Machine → ℕ → (Ptr → ℕ) → ℕ → Ptr → Bool
due m base w r x = leb (w (list_entry x)) (divu (m.rdtime r) base)

abbrev pub woken : Machine → ℕ → (Ptr → ℕ) → ℕ → List Ptr → List Ptr
woken m base w r [] = []
woken m base w r (x ∷ xs) =
    let rest = woken m base w (suc r) xs in if due m base w r x then x ∷ rest else rest

abbrev pub kept : Machine → ℕ → (Ptr → ℕ) → ℕ → List Ptr → List Ptr
kept m base w r [] = []
kept m base w r (x ∷ xs) =
    let rest = kept m base w (suc r) xs in if due m base w r x then rest else x ∷ rest

-- From `k` to `k'` the tasks `up` went to the end of the ready queue, and the sleep queue is left
-- with `asleep`. Only nodes of `ws` were written to.
pub record Woke (m : Machine) (k k' : Kernel) (ws ready up asleep : List Ptr) : Type 0 where
  pub ready_ring : IsRing k'.links m.ready_queue (ready ++ up)
  pub sleep_ring : IsRing k'.links m.sleep_queue asleep
  pub same : SameOutside ws k.links k'.links
  pub tasks :
      (p : Ptr)
      → k'.pcb p
        ≡ (if has (list_of p) up then record (k.pcb p) { status = task_ready } else k.pcb p)
  pub rest : SameRest k k'

-- The clock was read `n` times, and `time_elapsed` is what the last read gave, or as it was.
abbrev pub Ticked : Machine → Kernel → Kernel → ℕ → Type 0
Ticked m k k' zero = (k'.reads ≡ k.reads) × (k'.time_elapsed ≡ k.time_elapsed)
Ticked m k k' (suc n) = (k'.reads ≡ k.reads + suc n) × (k'.time_elapsed ≡ m.rdtime (k.reads + n))

module _ (m : Machine) (x : Ptr) (k : Kernel) where
  abbrev pub is_due : Bool
  is_due = due m k.time_base (λ p. (k.pcb p).wakeup_time) k.reads x

  pub wake_up-due : is_due ≡ true → wake_up m x k ≡ do_unblock m x (get_timer m k).1
  unfolding wake_up get_timer get_ticks
  wake_up-due h = rw h

  pub wake_up-not_due : is_due ≡ false → wake_up m x k ≡ (get_timer m k).1
  unfolding wake_up get_timer get_ticks
  wake_up-not_due h = rw h

  pub get_timer-rest : SameRest k (get_timer m k).1
  unfolding get_timer get_ticks
  get_timer-rest = record {
    current_running = refl;
    mlocks = refl;
    time_base = refl;
    kern_mem_curr = refl;
    user_mem_curr = refl;
    cpu = refl;
    stack = refl;
  }

  -- A read now, and `n` later.
  pub Ticked-due :
      (k' : Kernel) (n : ℕ)
      → Ticked m (do_unblock m x (get_timer m k).1) k' n
      → Ticked m k k' (suc n)
  unfolding do_unblock get_timer get_ticks
  Ticked-due k' zero t = (omega (arith, t.0), ground (arith, t.1))
  Ticked-due k' (suc n) t = (omega (arith, t.0), t.1 ∙ ap m.rdtime (omega arith))

  pub Ticked-not_due :
      (k' : Kernel) (n : ℕ) → Ticked m (get_timer m k).1 k' n → Ticked m k k' (suc n)
  unfolding get_timer get_ticks
  Ticked-not_due k' zero t = (omega (arith, t.0), ground (arith, t.1))
  Ticked-not_due k' (suc n) t = (omega (arith, t.0), t.1 ∙ ap m.rdtime (omega arith))

  pub do_unblock-rest : SameRest k (do_unblock m x k)
  unfolding do_unblock
  do_unblock-rest = record {
    current_running = refl;
    mlocks = refl;
    time_base = refl;
    kern_mem_curr = refl;
    user_mem_curr = refl;
    cpu = refl;
    stack = refl;
  }

-- A task that is unblocked first, and those woken later, are ready together.
pub unblock-tasks :
    (m : Machine) (x : Ptr) (k : Kernel) (up : List Ptr)
    → 16 ≤ x
    → (p : Ptr)
    → (if has (list_of p) up
        then record ((do_unblock m x (get_timer m k).1).pcb p) { status = task_ready }
        else (do_unblock m x (get_timer m k).1).pcb p)
      ≡ (if has (list_of p) (x ∷ up) then record (k.pcb p) { status = task_ready } else k.pcb p)
unfolding do_unblock get_timer get_ticks
unblock-tasks m x k up v p = elim (Bool-cases (p == list_entry x)) [
  | inl e ↦ ground arith
  | inr e ↦ ground arith
]

sleep_loop-next :
    (m : Machine) (fuel : ℕ) (x n : Ptr) (k : Kernel)
    → (x == m.sleep_queue) ≡ false
    → sleep_loop m (suc fuel) x n k
      ≡ sleep_loop m fuel n ((wake_up m x k).links.next n) (wake_up m x k)
unfolding sleep_loop
sleep_loop-next m fuel x n k ne = rw (ne, sleep_loop)

pub sleep_loop-end :
    (m : Machine) (fuel : ℕ) (n : Ptr) (k : Kernel)
    → sleep_loop m (suc fuel) m.sleep_queue n k ≡ some k
unfolding sleep_loop
sleep_loop-end m fuel n k =
    let same : (m.sleep_queue == m.sleep_queue) ≡ true = ground arith in rw (same, sleep_loop)

-- A round at `x` with its outcome, and then the walk from the next node on.
pub sleep_loop-step :
    (m : Machine) (fuel : ℕ) (x n : Ptr) (k k1 : Kernel) {k' : Kernel}
    → (x == m.sleep_queue) ≡ false
    → wake_up m x k ≡ k1
    → k.links.next x ≡ n
    → sleep_loop m fuel n (k1.links.next n) k1 ≡ some k'
    → sleep_loop m (suc fuel) x (k.links.next x) k ≡ some k'
sleep_loop-step m fuel x n k k1 ne outcome next goes =
    sleep_loop-next m fuel x _ k ne
    ∙ ap (λ k2. sleep_loop m fuel (k.links.next x) (k2.links.next (k.links.next x)) k2) outcome
    ∙ ap (λ q. sleep_loop m fuel q (k1.links.next q) k1) next
    ∙ goes
