-- ===== src/Interrupts.antt =====
-- kernel/irq/irq.c: the dispatch of traps by `scause`, and the timer interrupt.
pub mod Dispatch
pub mod Other
pub mod Timer
use ucas_oslab_project.Common.{ℕ, ◌+◌, ◌-◌, ◌%◌, ◌^◌, Option, none, some, leb, ltb, if◌then◌else◌}
use ucas_oslab_project.LinkedList.{update}
use ucas_oslab_project.Kernel.{Machine, Kernel}
use ucas_oslab_project.Sched.{get_ticks, do_scheduler}

-- The functions that the tables point to.
pub data Handler : Type 0 where
  handle_syscall : Handler
  handle_irq_timer : Handler
  handle_other : Handler

-- An entry that was never set is a null pointer.
abbrev pub Table : Type 0
Table = ℕ → Option Handler

abbrev pub irqc_count : ℕ
irqc_count = 12

abbrev pub excc_count : ℕ
excc_count = 16

abbrev pub put : ℕ → Handler → Table → Table
put code h t = update t code (some h)

unfoldable pub init_exc_table : Table → Table
init_exc_table t =
    let t1 = put 8 handle_syscall t in
    let t2 = put 0 handle_other t1 in
    let t3 = put 1 handle_other t2 in
    let t4 = put 3 handle_other t3 in
    let t5 = put 5 handle_other t4 in
    let t6 = put 7 handle_other t5 in
    let t7 = put 12 handle_other t6 in let t8 = put 13 handle_other t7 in put 15 handle_other t8

unfoldable pub init_irq_table : Table → Table
init_irq_table t =
    let t1 = put 0 handle_other t in
    let t2 = put 1 handle_other t1 in
    let t3 = put 3 handle_other t2 in
    let t4 = put 4 handle_other t3 in
    let t5 = put 5 handle_irq_timer t4 in
    let t6 = put 7 handle_other t5 in
    let t7 = put 8 handle_other t6 in let t8 = put 9 handle_other t7 in put 11 handle_other t8

-- The entry of a table of `count` entries; `none` is a null pointer or an index out of bounds.
abbrev pub entry : ℕ → Table → ℕ → Option Handler
entry count t i = if ltb i count then t i else none

-- The handler that `interrupt_helper` calls: bit 63 of `scause` chooses the table.
unfoldable pub interrupt_helper : (irq_table exc_table : Table) (scause : ℕ) → Option Handler
interrupt_helper irq_table exc_table scause =
    if leb (2 ^ 63) scause
    then entry irqc_count irq_table (scause - 2 ^ 63)
    else entry excc_count exc_table scause

abbrev pub timer_interval : ℕ
timer_interval = 150000

-- The deadline that the firmware's `bios_set_timer` is given, and the state that is left.
unfoldable pub do_irq_timer : Machine → Kernel → ℕ × Option Kernel
do_irq_timer m k =
    let (ticks, k1) = get_ticks m k in ((ticks + timer_interval) % 2 ^ 64, do_scheduler m k1)
