-- ===== src/Sched.antt =====
-- kernel/sched/sched.c and kernel/sched/time.c, with `switch_to` of arch/riscv/kernel/entry.S.
-- `none` is a walk that outlasts its fuel.
pub mod Latency
pub mod Wake
pub mod Sleep
pub mod Switch
pub mod Suspend
pub mod RoundRobin
pub mod Dispatch
pub mod Schedule
use mathlib.Core.Option
use ucas_oslab_project.Common.{
  ℕ, zero, suc, ◌+◌, ◌-◌, ◌*◌, ◌/◌, ◌%◌, ◌^◌, Bool, true, false, Option, none, some, leb, ltb, ◌==◌,
  if◌then◌else◌,
}
use ucas_oslab_project.LinkedList.{
  Ptr, Links, update, list_add_tail, list_del_init, list_move_tail, list_empty,
}
use ucas_oslab_project.Kernel.{
  TaskStatus, task_blocked, task_running, task_ready, task_exited, Pcb, Cpu, Machine, Kernel,
  list_of, list_entry, set_status, is_running,
}

-- `rdtime` into the global `time_elapsed`
unfoldable pub get_ticks : Machine → Kernel → ℕ × Kernel
get_ticks m k =
    (m.rdtime k.reads, record k { time_elapsed = m.rdtime k.reads; reads = k.reads + 1 })

-- `divu`: a division by zero gives the largest number.
abbrev pub divu : ℕ → ℕ → ℕ
divu a b = if b == 0 then 2 ^ 64 - 1 else a / b

unfoldable pub get_timer : Machine → Kernel → ℕ × Kernel
get_timer m k = let (ticks, k') = get_ticks m k in (divu ticks k'.time_base, k')

unfoldable pub get_time_base : Kernel → ℕ
get_time_base k = k.time_base

-- The loop of `latency`: `none` is a loop that outlasts its fuel.
unfoldable pub latency_loop : Machine → ℕ → (begin_time time : ℕ) → Kernel → Option Kernel
latency_loop m zero begin_time time k = none
latency_loop m (suc fuel) begin_time time k =
    let (now, k') = get_timer m k in
    let rest = latency_loop m fuel begin_time time k' in
    if ltb ((now + 2 ^ 64 - begin_time) % 2 ^ 64) time then rest else some k'

unfoldable pub latency : Machine → ℕ → (time : ℕ) → Kernel → Option Kernel
latency m fuel time k =
    let (begin_time, k1) = get_timer m k in latency_loop m fuel begin_time time k1

unfoldable pub do_block : Ptr → Ptr → Kernel → Kernel
do_block node queue k =
    let k1 = set_status (list_entry node) task_blocked k in
    record k1 { links = list_move_tail node queue k1.links }

unfoldable pub do_unblock : Machine → Ptr → Kernel → Kernel
do_unblock m node k =
    let k1 = set_status (list_entry node) task_ready k in
    record k1 { links = list_move_tail node m.ready_queue k1.links }

-- One round of `check_sleeping` at the node `pos`.
unfoldable pub wake_up : Machine → Ptr → Kernel → Kernel
wake_up m pos k =
    let (now, k1) = get_timer m k in
    if leb (k1.pcb (list_entry pos)).wakeup_time now then do_unblock m pos k1 else k1

-- `list_for_each_safe` over the sleep queue
unfoldable pub sleep_loop : Machine → ℕ → (pos n : Ptr) → Kernel → Option Kernel
sleep_loop m zero pos n k = none
sleep_loop m (suc fuel) pos n k = elim (pos == m.sleep_queue) [
  | true ↦ some k
  | false ↦ let k' = wake_up m pos k in sleep_loop m fuel n (k'.links.next n) k'
]

unfoldable pub check_sleeping : Machine → Kernel → Option Kernel
check_sleeping m k =
    let pos = k.links.next m.sleep_queue in sleep_loop m m.fuel pos (k.links.next pos) k

-- The stores of `switch_to`: s0 to s(i - 1), each at 16 + 8 * i above `sp`.
unfoldable pub save_s : ℕ → Ptr → (ℕ → ℕ) → (Ptr → ℕ) → Ptr → ℕ
save_s zero sp s mem = mem
save_s (suc i) sp s mem = update (save_s i sp s mem) (sp + 16 + 8 * i) (s i)

unfoldable pub save_context : Ptr → Kernel → Kernel
save_context prev k =
    let sp = (k.cpu.sp + 2 ^ 64 - 112) % 2 ^ 64 in
    let mem = update (update k.stack sp k.cpu.ra) (sp + 8) sp in
    record k {
      pcb = update k.pcb prev (record (k.pcb prev) { kernel_sp = sp });
      stack = save_s 12 sp k.cpu.s mem;
    }

unfoldable pub load_context : Ptr → Kernel → Kernel
load_context next k =
    let frame = (k.pcb next).kernel_sp in
    let sp = k.stack (frame + 8) in
    record k {
      cpu = record {
        ra = k.stack frame;
        sp = (sp + 112) % 2 ^ 64;
        s = λ i. if ltb i 12 then k.stack (sp + 16 + 8 * i) else k.cpu.s i;
      };
    }

unfoldable pub switch_to : Ptr → Ptr → Kernel → Kernel
switch_to prev next k = load_context next (save_context prev k)

-- `do_scheduler` from the choice of the next task on
unfoldable pub enqueue_running : Machine → Ptr → Kernel → Kernel
enqueue_running m pre k =
    if is_running (k.pcb pre).status
    then (let k1 = set_status pre task_ready k in
        record k1 { links = list_add_tail (list_of pre) m.ready_queue k1.links })
    else k

unfoldable pub dispatch : Machine → Kernel → Kernel
dispatch m k =
    let k1 = record k { current_running = list_entry (k.links.next m.ready_queue) } in
    let k2 = set_status k1.current_running task_running k1 in
    record k2 { links = list_del_init (list_of k2.current_running) k2.links }

unfoldable pub schedule : Machine → Kernel → Kernel
schedule m k =
    if list_empty m.ready_queue k.links
    then k
    else let k1 = dispatch m (enqueue_running m k.current_running k) in
      switch_to k.current_running k1.current_running k1

unfoldable pub do_scheduler : Machine → Kernel → Option Kernel
do_scheduler m k = Option.map (schedule m) (check_sleeping m k)

-- `do_sleep` up to its call of `do_scheduler`
unfoldable pub start_sleep : Machine → ℕ → Kernel → Kernel
start_sleep m sleep_time k =
    let k1 = do_block (list_of k.current_running) m.sleep_queue k in
    let (now, k2) = get_timer m k1 in
    let p = k2.current_running in
    record k2 {
      pcb = update k2.pcb p (record (k2.pcb p) { wakeup_time = (now + sleep_time) % 2 ^ 64 });
    }

unfoldable pub do_sleep : Machine → ℕ → Kernel → Option Kernel
do_sleep m sleep_time k = do_scheduler m (start_sleep m sleep_time k)

unfoldable pub do_exit : Machine → Kernel → Option Kernel
do_exit m k = do_scheduler m (set_status k.current_running task_exited k)
