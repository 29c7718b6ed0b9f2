-- ===== src/Examples/Scheduling.antt =====
-- The theorems on kernel/sched at concrete states.
use ucas_oslab_project.Common.{ℕ, ◌+◌, ◌≡◌, ◌≤◌, ◌<◌, refl, inl, some, List, [], ◌∷◌, ◌++◌, arith}
use ucas_oslab_project.Kernel.{task_blocked, task_exited, Kernel, set_status}
use ucas_oslab_project.Sched.Latency.{since, read_at, latency-ends}
use ucas_oslab_project.Sched.{
  latency, check_sleeping, do_scheduler, do_sleep, do_exit, start_sleep, switch_to, save_context,
  load_context,
}
use ucas_oslab_project.Sched.Wake.{Woke, Ticked}
use ucas_oslab_project.Sched.Sleep.{wakers, sleepers, check_sleeping-Woke}
use ucas_oslab_project.Sched.Dispatch.{status_of}
use ucas_oslab_project.Sched.RoundRobin.{Turn, queues, do_scheduler-Turn}
use ucas_oslab_project.Sched.Suspend.{do_sleep-Turn, do_exit-Turn}
use ucas_oslab_project.Sched.Switch.{switch_to_back}
use ucas_oslab_project.Examples.States.{machine, start, alone, start-IsSched}

check_sleeping-Woke_example :
    (k' : Kernel) × (check_sleeping machine start ≡ some k')
    × Woke machine start k' ((1000 ∷ 2116 ∷ []) ++ 1100 ∷ 2216 ∷ []) (2116 ∷ []) (2216 ∷ []) []
    × Ticked machine start k' 1
check_sleeping-Woke_example =
    check_sleeping-Woke machine start (2116 ∷ []) (2216 ∷ []) start-IsSched.queued (omega arith)

do_scheduler-Turn_example :
    (k1 : Kernel) × (k' : Kernel) × (do_scheduler machine start ≡ some k')
    × Woke machine start k1 (queues machine (2116 ∷ []) (2216 ∷ [])) (2116 ∷ []) (2216 ∷ []) []
    × Turn machine k1 k' (2116 ∷ 2216 ∷ []) []
do_scheduler-Turn_example =
    do_scheduler-Turn machine start (2116 ∷ []) (2216 ∷ []) start-IsSched (omega arith)

do_sleep-Turn_example :
    let k0 = start_sleep machine 30 start in
    let asleep : List ℕ = 2216 ∷ 2016 ∷ [] in
    (((k0.pcb 2000).wakeup_time ≡ 40) × (status_of k0 2000 ≡ task_blocked))
    × ((k1 : Kernel) × (k' : Kernel) × (do_sleep machine 30 start ≡ some k')
        × Woke machine k0 k1
            (queues machine (2116 ∷ []) asleep)
            (2116 ∷ [])
            (wakers machine k0 asleep)
            (sleepers machine k0 asleep)
        × Turn machine k1 k' (2116 ∷ [] ++ wakers machine k0 asleep) (sleepers machine k0 asleep))
do_sleep-Turn_example = do_sleep-Turn machine start start-IsSched refl 30 (omega arith)

do_exit-Turn_example :
    let k0 = set_status 2000 task_exited start in
    (k1 : Kernel) × (k' : Kernel) × (do_exit machine start ≡ some k')
    × Woke machine k0 k1 (queues machine (2116 ∷ []) (2216 ∷ [])) (2116 ∷ []) (2216 ∷ []) []
    × Turn machine k1 k' (2116 ∷ 2216 ∷ []) []
do_exit-Turn_example = do_exit-Turn machine start start-IsSched refl (omega arith)

-- A is switched off in favour of B, and B, on its own stack, switches back.
abbrev away : Kernel
away = record (switch_to 2000 2100 start) { cpu = record { ra = 88; sp = 5112; s = λ i. 0 } }

switch_to_back_example :
    ((switch_to 2100 2000 away).cpu.ra ≡ 77)
    × ((switch_to 2100 2000 away).cpu.sp ≡ 9000)
    × ((i : ℕ) → i < 12 → (switch_to 2100 2000 away).cpu.s i ≡ i + 50)
unfolding switch_to load_context save_context
switch_to_back_example =
    switch_to_back 2000 2100 2100 start away (omega arith) (omega arith) refl refl
      (λ q low high. refl) (inl (omega arith))

-- The clock has ten ticks a second, and each reading is one tick later.
latency-ends_example :
    (r : ℕ) × (r ≤ 9)
    × (1 ≤ since machine alone 10 (0 + 1 + r))
    × ((q : ℕ) → q < r → since machine alone 10 (0 + 1 + q) < 1)
    × (latency machine 20 1 alone ≡ some (read_at machine alone (0 + 1 + r)))
latency-ends_example = latency-ends machine 9 20 1 alone (omega arith) (omega arith)
