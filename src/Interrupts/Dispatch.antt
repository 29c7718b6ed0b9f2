-- ===== src/Interrupts/Dispatch.antt =====
-- kernel/irq/irq.c: which causes have a handler.
use ucas_oslab_project.Common.{
  ℕ, ◌+◌, ◌^◌, ◌≤◌, ◌<◌, ◌≡◌, ◌↔◌, ◌⊎◌, none, some, arith, has, true, List, [], ◌∷◌,
}
use ucas_oslab_project.Interrupts.{
  handle_syscall, handle_irq_timer, Table, init_irq_table, init_exc_table, interrupt_helper,
}

-- The tables as they are after `init_exception`.
abbrev pub irq_table : Table
irq_table = init_irq_table (λ i. none)

abbrev pub exc_table : Table
exc_table = init_exc_table (λ i. none)

-- With the tables of init_exception, interrupt_helper calls handle_syscall for cause 8 alone, and
-- handle_irq_timer for the supervisor timer interrupt alone.
pub interrupt_helper-routes :
    (scause : ℕ)
    → ((interrupt_helper irq_table exc_table scause ≡ some handle_syscall) ↔ (scause ≡ 8))
      × ((interrupt_helper irq_table exc_table scause ≡ some handle_irq_timer)
          ↔ (scause ≡ 2 ^ 63 + 5))
unfolding interrupt_helper init_irq_table init_exc_table
interrupt_helper-routes scause =
    ((λ h. ground arith, λ h. ground arith), (λ h. ground arith, λ h. ground arith))

-- The exceptions that have no code in `ExcCode`.
abbrev pub unset : List ℕ
unset = 2 ∷ 4 ∷ 6 ∷ 9 ∷ 10 ∷ 11 ∷ 14 ∷ []

-- With the tables of init_exception, an exception (a cause below 2^63) finds no handler just if
-- its cause is 2, 4, 6, 9, 10, 11, 14, or at least 16.
pub interrupt_helper-unset :
    (scause : ℕ)
    → scause < 2 ^ 63
    → (interrupt_helper irq_table exc_table scause ≡ none)
      ↔ ((has scause unset ≡ true) ⊎ (16 ≤ scause))
unfolding interrupt_helper init_irq_table init_exc_table
interrupt_helper-unset scause low = (λ h. ground arith, λ h. ground arith)
