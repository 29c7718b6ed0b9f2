-- ===== src/Syscalls/Route.antt =====
-- kernel/syscall/syscall.c: what a stub's trap calls, and what the program finds on its return.
use mathlib.Core.Path.{subst, fun_ext}
use ucas_oslab_project.LinkedList.{update}
use ucas_oslab_project.Common.{
  ℕ, ◌+◌, ◌%◌, ◌^◌, ◌≤◌, ◌<◌, ◌≡◌, refl, sym, ap, ◌∙◌, Option, none, some, false, arith, has, [],
  ◌∷◌,
}
use ucas_oslab_project.Syscalls.{
  Service, do_sleep, do_scheduler, screen_write, screen_move_cursor, screen_reflush, get_time_base,
  get_ticks, do_mutex_lock_init, do_mutex_lock_acquire, do_mutex_lock_release, do_thread_create,
  do_thread_yield, init_syscall, lookup, handle_syscall, Stub, sys_yield, sys_move_cursor,
  sys_write, sys_reflush, sys_mutex_init, sys_mutex_acquire, sys_mutex_release, sys_get_timebase,
  sys_get_tick, sys_sleep, sys_thread_create, sys_thread_yield, invoke_syscall, ecall_of,
}

-- The table after `init_syscall`.
abbrev pub table : ℕ → Option Service
table = init_syscall (λ n. none)

module _ {S : Type 0} (call : Service → (a0 a1 a2 a3 a4 : ℕ) → S → Option (ℕ × S)) where
  -- What the stub asks the kernel for.
  abbrev pub asked : Stub → S → Option (ℕ × S)
  asked sys_yield = call do_scheduler 0 0 0 0 0
  asked (sys_move_cursor x y) = call screen_move_cursor x y 0 0 0
  asked (sys_write buff) = call screen_write buff 0 0 0 0
  asked sys_reflush = call screen_reflush 0 0 0 0 0
  asked (sys_mutex_init key) = call do_mutex_lock_init key 0 0 0 0
  asked (sys_mutex_acquire mutex_idx) = call do_mutex_lock_acquire mutex_idx 0 0 0 0
  asked (sys_mutex_release mutex_idx) = call do_mutex_lock_release mutex_idx 0 0 0 0
  asked sys_get_timebase = call get_time_base 0 0 0 0 0
  asked sys_get_tick = call get_ticks 0 0 0 0 0
  asked (sys_sleep time) = call do_sleep time 0 0 0 0
  asked (sys_thread_create func arg0 arg1 arg2 arg3) =
      call do_thread_create func arg0 arg1 arg2 arg3
  asked sys_thread_yield = call do_thread_yield 0 0 0 0 0

  -- The state `s'` and the registers `regs'` that a trap with the result `result` ends in.
  abbrev pub Returned : (regs : ℕ → ℕ) (result : ℕ) (s' : S) → Option ((ℕ → ℕ) × S) → Type 0
  Returned regs result s' out =
      (regs' : ℕ → ℕ) × (out ≡ some (regs', s'))
      × (regs' 10 ≡ result)
      × (regs' 33 ≡ (regs 33 + 4) % 2 ^ 64)
      × ((i : ℕ) → has i (10 ∷ 11 ∷ 12 ∷ 13 ∷ 14 ∷ 17 ∷ 33 ∷ []) ≡ false → regs' i ≡ regs i)

  -- The call that a stub makes, and its entry of the table.
  record Routed (stub : Stub) : Type 0 where
    pub sysno : ℕ
    pub arg0 : ℕ
    pub arg1 : ℕ
    pub arg2 : ℕ
    pub arg3 : ℕ
    pub arg4 : ℕ
    pub service : Service
    pub entry : lookup table sysno ≡ some service
    pub asks : (s : S) → asked stub s ≡ call service arg0 arg1 arg2 arg3 arg4 s
    pub ecall :
        (regs : ℕ → ℕ) → ecall_of stub regs ≡ invoke_syscall sysno arg0 arg1 arg2 arg3 arg4 regs

  routed : (stub : Stub) → Routed stub
  unfolding ecall_of init_syscall lookup
  routed sys_yield = record {
    sysno = 7;
    arg0 = 0;
    arg1 = 0;
    arg2 = 0;
    arg3 = 0;
    arg4 = 0;
    service = do_scheduler;
    entry = refl;
    asks = λ s. refl;
    ecall = λ regs. refl;
  }
  routed (sys_move_cursor x y) = record {
    sysno = 22;
    arg0 = x;
    arg1 = y;
    arg2 = 0;
    arg3 = 0;
    arg4 = 0;
    service = screen_move_cursor;
    entry = refl;
    asks = λ s. refl;
    ecall = λ regs. refl;
  }
  routed (sys_write b) = record {
    sysno = 20;
    arg0 = b;
    arg1 = 0;
    arg2 = 0;
    arg3 = 0;
    arg4 = 0;
    service = screen_write;
    entry = refl;
    asks = λ s. refl;
    ecall = λ regs. refl;
  }
  routed sys_reflush = record {
    sysno = 23;
    arg0 = 0;
    arg1 = 0;
    arg2 = 0;
    arg3 = 0;
    arg4 = 0;
    service = screen_reflush;
    entry = refl;
    asks = λ s. refl;
    ecall = λ regs. refl;
  }
  routed (sys_mutex_init key) = record {
    sysno = 40;
    arg0 = key;
    arg1 = 0;
    arg2 = 0;
    arg3 = 0;
    arg4 = 0;
    service = do_mutex_lock_init;
    entry = refl;
    asks = λ s. refl;
    ecall = λ regs. refl;
  }
  routed (sys_mutex_acquire i) = record {
    sysno = 41;
    arg0 = i;
    arg1 = 0;
    arg2 = 0;
    arg3 = 0;
    arg4 = 0;
    service = do_mutex_lock_acquire;
    entry = refl;
    asks = λ s. refl;
    ecall = λ regs. refl;
  }
  routed (sys_mutex_release i) = record {
    sysno = 42;
    arg0 = i;
    arg1 = 0;
    arg2 = 0;
    arg3 = 0;
    arg4 = 0;
    service = do_mutex_lock_release;
    entry = refl;
    asks = λ s. refl;
    ecall = λ regs. refl;
  }
  routed sys_get_timebase = record {
    sysno = 30;
    arg0 = 0;
    arg1 = 0;
    arg2 = 0;
    arg3 = 0;
    arg4 = 0;
    service = get_time_base;
    entry = refl;
    asks = λ s. refl;
    ecall = λ regs. refl;
  }
  routed sys_get_tick = record {
    sysno = 31;
    arg0 = 0;
    arg1 = 0;
    arg2 = 0;
    arg3 = 0;
    arg4 = 0;
    service = get_ticks;
    entry = refl;
    asks = λ s. refl;
    ecall = λ regs. refl;
  }
  routed (sys_sleep t) = record {
    sysno = 2;
    arg0 = t;
    arg1 = 0;
    arg2 = 0;
    arg3 = 0;
    arg4 = 0;
    service = do_sleep;
    entry = refl;
    asks = λ s. refl;
    ecall = λ regs. refl;
  }
  routed (sys_thread_create g a b c d) = record {
    sysno = 50;
    arg0 = g;
    arg1 = a;
    arg2 = b;
    arg3 = c;
    arg4 = d;
    service = do_thread_create;
    entry = refl;
    asks = λ s. refl;
    ecall = λ regs. refl;
  }
  routed sys_thread_yield = record {
    sysno = 51;
    arg0 = 0;
    arg1 = 0;
    arg2 = 0;
    arg3 = 0;
    arg4 = 0;
    service = do_thread_yield;
    entry = refl;
    asks = λ s. refl;
    ecall = λ regs. refl;
  }

  -- The registers `regs` when the result has been stored.
  abbrev pub answered : (regs : ℕ → ℕ) (result : ℕ) → ℕ → ℕ
  answered regs result = update (update regs 10 result) 33 ((regs 33 + 4) % 2 ^ 64)

  invoke_syscall-twice :
      (n a0 a1 a2 a3 a4 i : ℕ) (before regs : ℕ → ℕ)
      → (1 ≤ i → i < 32 → regs i ≡ invoke_syscall n a0 a1 a2 a3 a4 before i)
      → invoke_syscall n a0 a1 a2 a3 a4 regs i ≡ regs i
  unfolding invoke_syscall
  invoke_syscall-twice n a0 a1 a2 a3 a4 i before regs same = ground arith

  handle_syscall-invoke :
      (n a0 a1 a2 a3 a4 : ℕ) (f : Service) (regs : ℕ → ℕ) (s s' : S) (result : ℕ)
      → lookup table n ≡ some f
      → call f a0 a1 a2 a3 a4 s ≡ some (result, s')
      → let set = invoke_syscall n a0 a1 a2 a3 a4 regs in
        handle_syscall call table set s ≡ some (answered set result, s')
  unfolding handle_syscall invoke_syscall
  handle_syscall-invoke n a0 a1 a2 a3 a4 f regs s s' result at h = rw (at, h, handle_syscall) refl

  handle_syscall-ecall :
      (stub : Stub) (regs : ℕ → ℕ) (s s' : S) (result : ℕ)
      → asked stub s ≡ some (result, s')
      → handle_syscall call table (ecall_of stub regs) s
        ≡ some (answered (ecall_of stub regs) result, s')
  handle_syscall-ecall stub regs s s' result h =
      let t = routed stub in
      rw (t.ecall regs) (
        handle_syscall-invoke t.sysno t.arg0 t.arg1 t.arg2 t.arg3 t.arg4 t.service regs s s' result
          t.entry (sym (t.asks s) ∙ h))

  answered-invoke :
      (n a0 a1 a2 a3 a4 result : ℕ) (regs : ℕ → ℕ)
      → let regs' = answered (invoke_syscall n a0 a1 a2 a3 a4 regs) result in
        (regs' 10 ≡ result)
        × (regs' 33 ≡ (regs 33 + 4) % 2 ^ 64)
        × ((i : ℕ) → has i (10 ∷ 11 ∷ 12 ∷ 13 ∷ 14 ∷ 17 ∷ 33 ∷ []) ≡ false → regs' i ≡ regs i)
  unfolding invoke_syscall
  answered-invoke n a0 a1 a2 a3 a4 result regs = (refl, refl, λ i out. ground arith)

  -- If the kernel function that a stub is for returns a result for the stub's arguments, the trap
  -- that the stub takes calls that function, puts the result into a0, moves sepc on by 4 modulo
  -- 2^64, and leaves the registers other than a0 to a4 and a7 as they were.
  pub handle_syscall-stub :
      (stub : Stub) (regs : ℕ → ℕ) (s s' : S) (result : ℕ)
      → asked stub s ≡ some (result, s')
      → Returned regs result s' (handle_syscall call table (ecall_of stub regs) s)
  handle_syscall-stub stub regs s s' result h =
      let t = routed stub in
      let a = answered-invoke t.sysno t.arg0 t.arg1 t.arg2 t.arg3 t.arg4 result regs in
      (
        _,
        handle_syscall-ecall stub regs s s' result h,
        refl,
        rw (t.ecall regs) a.1,
        λ i out. rw (t.ecall regs) (a.2 i out),
      )

  -- Registers that a stub has set are as the stub sets them.
  pub handle_syscall-set :
      (stub : Stub) (before regs : ℕ → ℕ) (s s' : S) (result : ℕ)
      → ((r : ℕ) → 1 ≤ r → r < 32 → regs r ≡ ecall_of stub before r)
      → asked stub s ≡ some (result, s')
      → handle_syscall call table regs s ≡ some (answered regs result, s')
  handle_syscall-set stub before regs s s' result set h =
      let t = routed stub in
      let fixed : ecall_of stub regs ≡ regs = fun_ext (λ i.
        ap (λ f. f i) (t.ecall regs)
        ∙ invoke_syscall-twice t.sysno t.arg0 t.arg1 t.arg2 t.arg3 t.arg4 i before regs
            (λ lo hi. set i lo hi ∙ ap (λ f. f i) (t.ecall before))) in
      subst (λ x. handle_syscall call table x s ≡ some (answered x result, s')) fixed
        (handle_syscall-ecall stub regs s s' result h)
