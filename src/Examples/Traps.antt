-- ===== src/Examples/Traps.antt =====
-- The theorems on traps and system calls.
use ucas_oslab_project.Common.{
  ℕ, ◌+◌, ◌*◌, ◌%◌, ◌^◌, ◌≤◌, ◌≡◌, ◌↔◌, ◌⊎◌, true, Option, none, some, ◌++◌, [], ◌∷◌, arith, has,
}
use ucas_oslab_project.Kernel.{Kernel}
use ucas_oslab_project.Sched.{get_ticks}
use ucas_oslab_project.Sched.Wake.{Woke}
use ucas_oslab_project.Sched.Sleep.{wakers, sleepers}
use ucas_oslab_project.Sched.RoundRobin.{Turn, queues}
use ucas_oslab_project.Interrupts.{
  handle_syscall, handle_irq_timer, interrupt_helper, do_irq_timer, timer_interval,
}
use ucas_oslab_project.Interrupts.Dispatch.{
  irq_table, exc_table, unset, interrupt_helper-routes, interrupt_helper-unset,
}
use ucas_oslab_project.Interrupts.Timer.{do_irq_timer-Turn}
use ucas_oslab_project.Syscalls.{Service}
use ucas_oslab_project.Examples.States.{machine, start, start-IsSched}

interrupt_helper-routes_example :
    ((interrupt_helper irq_table exc_table 8 ≡ some handle_syscall) ↔ (let x : ℕ = 8 in x ≡ 8))
    × ((interrupt_helper irq_table exc_table 8 ≡ some handle_irq_timer)
        ↔ (let x : ℕ = 8 in x ≡ 2 ^ 63 + 5))
interrupt_helper-routes_example = interrupt_helper-routes 8

-- An illegal instruction.
interrupt_helper-unset_example :
    (interrupt_helper irq_table exc_table 2 ≡ none) ↔ ((has 2 unset ≡ true) ⊎ (16 ≤ 2))
interrupt_helper-unset_example = interrupt_helper-unset 2 (omega arith)

do_irq_timer-Turn_example :
    let k0 = (get_ticks machine start).1 in
    ((do_irq_timer machine start).0 ≡ (100 + timer_interval) % 2 ^ 64)
    × ((k1 : Kernel) × (k' : Kernel) × ((do_irq_timer machine start).1 ≡ some k')
        × Woke machine k0 k1
            (queues machine (2116 ∷ []) (2216 ∷ []))
            (2116 ∷ [])
            (wakers machine k0 (2216 ∷ []))
            (sleepers machine k0 (2216 ∷ []))
        × Turn machine k1 k'
            (2116 ∷ [] ++ wakers machine k0 (2216 ∷ []))
            (sleepers machine k0 (2216 ∷ [])))
do_irq_timer-Turn_example =
    do_irq_timer-Turn machine start (2116 ∷ []) (2216 ∷ []) start-IsSched (omega arith)

-- Every service returns the sum of its first two arguments, and counts its calls.
abbrev pub counted : Service → (a0 a1 a2 a3 a4 : ℕ) → ℕ → Option (ℕ × ℕ)
counted f a0 a1 a2 a3 a4 calls = some (a0 + a1, calls + 1)

abbrev numbered : ℕ → ℕ
numbered i = i * 100
