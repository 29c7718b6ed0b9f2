-- ===== src/Kernel.antt =====
-- The state of the kernel: include/os/sched.h, include/os/lock.h and the globals of kernel/sched,
-- kernel/locking and kernel/mm. Addresses and registers are numbers below 2 ^ 64, an `int` is an ℤ.
use ucas_oslab_project.Common.{ℕ, ◌+◌, ◌-◌, ◌*◌, Bool, true, false, List}
use ucas_oslab_project.Common.Int.{ℤ}
use ucas_oslab_project.LinkedList.{Ptr, Links, update}

pub data TaskStatus : Type 0 where
  task_blocked : TaskStatus
  task_running : TaskStatus
  task_ready : TaskStatus
  task_exited : TaskStatus

-- `pcb_t`, less its two list nodes, which live in `Links` at `list_of` and `thread_group_of`.
pub record Pcb : Type 0 where
  pub kernel_sp : ℕ
  pub user_sp : ℕ
  pub pid : ℕ
  pub status : TaskStatus
  pub cursor_x : ℤ
  pub cursor_y : ℤ
  pub wakeup_time : ℕ

pub data LockStatus : Type 0 where
  unlocked : LockStatus
  locked : LockStatus

-- `mutex_lock_t`, less its block queue, whose head lives in `Links` at `block_queue`.
pub record MutexLock : Type 0 where
  pub status : LockStatus
  pub key : ℤ

-- The registers that `switch_to` saves: `s` has s0 to s11.
pub record Cpu : Type 0 where
  pub ra : ℕ
  pub sp : ℕ
  pub s : ℕ → ℕ

-- What the linker and the hardware choose. `rdtime n` is what the `n`-th read of the time counter
-- gives; `fuel` bounds the rounds of a walk along a queue.
pub record Machine : Type 0 where
  pub ready_queue : Ptr
  pub sleep_queue : Ptr
  pub mlocks : Ptr
  pub ret_from_exception : ℕ
  pub rdtime : ℕ → ℕ
  pub fuel : ℕ

pub record Kernel : Type 0 where
  pub links : Links
  pub pcb : Ptr → Pcb
  pub current_running : Ptr
  pub mlocks : List MutexLock
  pub time_elapsed : ℕ
  pub time_base : ℕ
  pub reads : ℕ  -- reads of the time counter so far
  pub kern_mem_curr : ℕ
  pub user_mem_curr : ℕ
  pub cpu : Cpu
  pub stack : Ptr → ℕ  -- the double words of the kernel stacks

-- `&p->list`, `&p->thread_group`, and `list_entry` for each of the two members.
abbrev pub list_of : Ptr → Ptr
list_of p = p + 16

abbrev pub thread_group_of : Ptr → Ptr
thread_group_of p = p + 56

abbrev pub list_entry : Ptr → Ptr
list_entry node = node - 16

abbrev pub group_entry : Ptr → Ptr
group_entry node = node - 56

-- `&mlocks[i].block_queue`: a `mutex_lock_t` has 32 bytes, the queue after an `int` and padding.
abbrev pub block_queue : Machine → ℕ → Ptr
block_queue m i = m.mlocks + 32 * i + 8

abbrev pub set_status : Ptr → TaskStatus → Kernel → Kernel
set_status p st k = record k { pcb = update k.pcb p (record (k.pcb p) { status = st }) }

abbrev pub is_running : TaskStatus → Bool
is_running task_running = true
is_running _ = false
