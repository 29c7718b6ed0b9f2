-- ===== src/Sched/Latency.antt =====
-- kernel/sched/time.c: `latency` ends at the first reading of the clock that is late enough.
use mathlib.Core.Path.{subst}
use ucas_oslab_project.Common.{
  ℕ, zero, suc, ◌+◌, ◌-◌, ◌%◌, ◌^◌, ◌≤◌, ◌<◌, ◌≡◌, refl, ap, ◌∙◌, inl, inr, ltb, Bool-cases, true,
  false, some, if◌then◌else◌, arith,
}
use ucas_oslab_project.Kernel.{Machine, Kernel}
use ucas_oslab_project.Sched.{divu, get_ticks, get_timer, latency_loop, latency}

-- The seconds from `begin_time` to the reading number `i`.
abbrev pub since : Machine → Kernel → (begin_time i : ℕ) → ℕ
since m k begin_time i = (divu (m.rdtime i) k.time_base + 2 ^ 64 - begin_time) % 2 ^ 64

-- The kernel after the reading number `i`.
abbrev pub read_at : Machine → Kernel → ℕ → Kernel
read_at m k i = record k { time_elapsed = m.rdtime i; reads = i + 1 }

latency_loop-step :
    (m : Machine) (fuel begin_time time : ℕ) (k : Kernel)
    → latency_loop m (suc fuel) begin_time time k ≡ (
        if ltb (since m k begin_time k.reads) time
        then latency_loop m fuel begin_time time (read_at m k k.reads)
        else some (read_at m k k.reads))
unfolding latency_loop get_timer get_ticks
latency_loop-step m fuel begin_time time k = refl

earlier :
    (m : Machine) (k : Kernel) (begin_time time r : ℕ)
    → ltb (since m k begin_time k.reads) time ≡ true
    → ((q : ℕ) → q < r → since m k begin_time (k.reads + 1 + q) < time)
    → (q : ℕ) → q < suc r
    → since m k begin_time (k.reads + q) < time
earlier m k begin_time time r early before zero lt =
    let here : k.reads ≡ k.reads + 0 = omega arith in
    subst (λ i. since m k begin_time i < time) here (ground arith)
earlier m k begin_time time r early before (suc q) lt =
    let shift : k.reads + 1 + q ≡ k.reads + suc q = omega arith in
    subst (λ i. since m k begin_time i < time) shift (before q (omega arith))

-- The loop ends at the first reading from `k.reads` on, and at most at the `n`-th, that is late enough.
Ends : Machine → (n fuel begin_time time : ℕ) → Kernel → Type 0
Ends m n fuel begin_time time k =
    (r : ℕ) × (r ≤ n)
    × (time ≤ since m k begin_time (k.reads + r))
    × ((q : ℕ) → q < r → since m k begin_time (k.reads + q) < time)
    × (latency_loop m fuel begin_time time k ≡ some (read_at m k (k.reads + r)))

Ends-now :
    (m : Machine) (n fuel begin_time time : ℕ) (k : Kernel)
    → ltb (since m k begin_time k.reads) time ≡ false
    → Ends m n (suc fuel) begin_time time k
unfolding Ends
Ends-now m n fuel begin_time time k now =
    let here : k.reads ≡ k.reads + 0 = omega arith in
    (
      0,
      omega arith,
      subst (λ i. time ≤ since m k begin_time i) here (ground arith),
      (λ q lt. absurd (omega arith)),
      latency_loop-step m fuel begin_time time k ∙ rw now (ap (λ i. some (read_at m k i)) here),
    )

Ends-later :
    (m : Machine) (n fuel begin_time time : ℕ) (k : Kernel)
    → ltb (since m k begin_time k.reads) time ≡ true
    → Ends m n fuel begin_time time (read_at m k k.reads)
    → Ends m (suc n) (suc fuel) begin_time time k
unfolding Ends
Ends-later m n fuel begin_time time k early (r, le, late, before, goes) =
    let shift : k.reads + 1 + r ≡ k.reads + suc r = omega arith in
    (
      suc r,
      omega arith,
      subst (λ i. time ≤ since m k begin_time i) shift late,
      earlier m k begin_time time r early before,
      latency_loop-step m fuel begin_time time k
          ∙ rw early (goes ∙ ap (λ i. some (read_at m k i)) shift),
    )

latency_loop-Ends :
    (m : Machine) (n fuel begin_time time : ℕ) (k : Kernel)
    → n < fuel
    → time ≤ since m k begin_time (k.reads + n)
    → Ends m n fuel begin_time time k
latency_loop-Ends m n zero begin_time time k enough late = absurd (omega arith)
latency_loop-Ends m zero (suc fuel) begin_time time k enough late =
    let here : k.reads + 0 ≡ k.reads = omega arith in
    let low : time ≤ since m k begin_time k.reads =
      subst (λ i. time ≤ since m k begin_time i) here late in
    Ends-now m zero fuel begin_time time k (ground arith)
latency_loop-Ends m (suc n) (suc fuel) begin_time time k enough late =
    let shift : k.reads + suc n ≡ k.reads + 1 + n = omega arith in
    elim (Bool-cases (ltb (since m k begin_time k.reads) time)) [
      | inl early ↦ Ends-later m n fuel begin_time time k early (
          latency_loop-Ends m n fuel begin_time time (read_at m k k.reads) (omega arith)
            (subst (λ i. time ≤ since m k begin_time i) shift late))
      | inr now ↦ Ends-now m (suc n) fuel begin_time time k now
    ]

-- If the clock, after the first reading and within the fuel, reads `time` seconds more than that
-- reading or later (as 64-bit numbers), latency ends: at the first such reading and not before,
-- with nothing changed but the clock's last reading.
pub latency-ends :
    (m : Machine) (n fuel time : ℕ) (k : Kernel)
    → let begin_time = divu (m.rdtime k.reads) k.time_base in
      n < fuel
      → time ≤ since m k begin_time (k.reads + 1 + n)
      → (r : ℕ) × (r ≤ n)
        × (time ≤ since m k begin_time (k.reads + 1 + r))
        × ((q : ℕ) → q < r → since m k begin_time (k.reads + 1 + q) < time)
        × (latency m fuel time k ≡ some (read_at m k (k.reads + 1 + r)))
unfolding latency get_timer get_ticks Ends
latency-ends m n fuel time k enough late =
    latency_loop-Ends m n fuel (divu (m.rdtime k.reads) k.time_base) time (read_at m k k.reads)
      enough late
