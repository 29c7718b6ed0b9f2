-- ===== src/Syscalls.antt =====
-- kernel/syscall/syscall.c, the system-call table of init/main.c, and the stubs of
-- tiny_libc/syscall.c, which run in user mode. A trap frame is the array `regs` of 36 words.
pub mod Route
use ucas_oslab_project.Common.{
  ℕ, ◌+◌, ◌%◌, ◌^◌, ◌==◌, Option, none, some, ltb, if◌then◌else◌, List, [], ◌∷◌,
}
use ucas_oslab_project.LinkedList.{update}

-- The kernel's functions that the table points to.
pub data Service : Type 0 where
  do_sleep : Service
  do_scheduler : Service
  screen_write : Service
  screen_move_cursor : Service
  screen_reflush : Service
  get_time_base : Service
  get_ticks : Service
  do_mutex_lock_init : Service
  do_mutex_lock_acquire : Service
  do_mutex_lock_release : Service
  do_exit : Service
  do_thread_create : Service
  do_thread_yield : Service

abbrev pub num_syscalls : ℕ
num_syscalls = 96

abbrev pub set_call : ℕ → Service → (ℕ → Option Service) → ℕ → Option Service
set_call n f t = update t n (some f)

unfoldable pub init_syscall : (ℕ → Option Service) → ℕ → Option Service
init_syscall t =
    let t1 = set_call 2 do_sleep t in
    let t2 = set_call 7 do_scheduler t1 in
    let t3 = set_call 20 screen_write t2 in
    let t4 = set_call 22 screen_move_cursor t3 in
    let t5 = set_call 23 screen_reflush t4 in
    let t6 = set_call 30 get_time_base t5 in
    let t7 = set_call 31 get_ticks t6 in
    let t8 = set_call 40 do_mutex_lock_init t7 in
    let t9 = set_call 41 do_mutex_lock_acquire t8 in
    let t10 = set_call 42 do_mutex_lock_release t9 in
    let t11 = set_call 1 do_exit t10 in
    let t12 = set_call 50 do_thread_create t11 in set_call 51 do_thread_yield t12

-- `syscall[n]`; `none` is a null pointer or an index out of bounds.
unfoldable pub lookup : (ℕ → Option Service) → ℕ → Option Service
lookup syscall n = if ltb n num_syscalls then syscall n else none

-- `handle_syscall`, given what the kernel's functions do to the state `S`; `none` is a call
-- through no entry of the table, or a function that does not return.
module _ {ℓ} {S : Type ℓ} (call : Service → (a0 a1 a2 a3 a4 : ℕ) → S → Option (ℕ × S)) where
  unfoldable pub handle_syscall :
      (syscall : ℕ → Option Service) (regs : ℕ → ℕ) → S → Option ((ℕ → ℕ) × S)
  handle_syscall syscall regs s = elim (lookup syscall (regs 17)) [
    | none ↦ none
    | some f ↦ elim (call f (regs 10) (regs 11) (regs 12) (regs 13) (regs 14) s) [
      | none ↦ none
      | some r ↦
          let (result, s') = r in
          let regs1 = update regs 10 result in some (update regs1 33 ((regs1 33 + 4) % 2 ^ 64), s')
    ]
  ]

-- The stubs, with their arguments.
pub data Stub : Type 0 where
  sys_yield : Stub
  sys_move_cursor : (x y : ℕ) → Stub
  sys_write : (buff : ℕ) → Stub
  sys_reflush : Stub
  sys_mutex_init : (key : ℕ) → Stub
  sys_mutex_acquire : (mutex_idx : ℕ) → Stub
  sys_mutex_release : (mutex_idx : ℕ) → Stub
  sys_get_timebase : Stub
  sys_get_tick : Stub
  sys_sleep : (time : ℕ) → Stub
  sys_thread_create : (func arg0 arg1 arg2 arg3 : ℕ) → Stub
  sys_thread_yield : Stub

-- The registers at the `ecall` of `invoke_syscall`: a0 to a4 are x10 to x14, a7 is x17.
unfoldable pub invoke_syscall : (sysno arg0 arg1 arg2 arg3 arg4 : ℕ) (regs : ℕ → ℕ) → ℕ → ℕ
invoke_syscall sysno arg0 arg1 arg2 arg3 arg4 regs =
    let r1 = update regs 17 sysno in
    let r2 = update r1 10 arg0 in
    let r3 = update r2 11 arg1 in
    let r4 = update r3 12 arg2 in let r5 = update r4 13 arg3 in update r5 14 arg4

unfoldable pub ecall_of : Stub → (ℕ → ℕ) → ℕ → ℕ
ecall_of sys_yield = invoke_syscall 7 0 0 0 0 0
ecall_of (sys_move_cursor x y) = invoke_syscall 22 x y 0 0 0
ecall_of (sys_write buff) = invoke_syscall 20 buff 0 0 0 0
ecall_of sys_reflush = invoke_syscall 23 0 0 0 0 0
ecall_of (sys_mutex_init key) = invoke_syscall 40 key 0 0 0 0
ecall_of (sys_mutex_acquire mutex_idx) = invoke_syscall 41 mutex_idx 0 0 0 0
ecall_of (sys_mutex_release mutex_idx) = invoke_syscall 42 mutex_idx 0 0 0 0
ecall_of sys_get_timebase = invoke_syscall 30 0 0 0 0 0
ecall_of sys_get_tick = invoke_syscall 31 0 0 0 0 0
ecall_of (sys_sleep time) = invoke_syscall 2 time 0 0 0 0
ecall_of (sys_thread_create func arg0 arg1 arg2 arg3) = invoke_syscall 50 func arg0 arg1 arg2 arg3
ecall_of sys_thread_yield = invoke_syscall 51 0 0 0 0 0
