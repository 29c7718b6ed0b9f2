-- ===== src/Threads/Create.antt =====
-- kernel/sched/thread.c: a new thread's first dispatch, and its place in its group.
use ucas_oslab_project.Common.{
  ℕ, ◌+◌, ◌*◌, ◌%◌, ◌^◌, ◌≤◌, ◌<◌, ◌≡◌, refl, ◌==◌, ◌⊎◌, false, List, [], ◌∷◌, arith, has, has_ne,
}
use ucas_oslab_project.LinkedList.{Ptr, Links, init_list_head}
use ucas_oslab_project.LinkedList.Chain.{IsRing, IsRing-frame}
use ucas_oslab_project.LinkedList.Grow.{
  init_list_head-IsRing, init_list_head-SameOutside, list_add-IsRing,
}
use ucas_oslab_project.Kernel.{task_ready, Machine, Kernel, list_of, thread_group_of}
use ucas_oslab_project.Sched.{load_context}
use ucas_oslab_project.Memory.{page_size}
use ucas_oslab_project.Memory.Pages.{kernel-exact, user-exact}
use ucas_oslab_project.Threads.{
  below, tcb_size, store_regs, store_switchto, init_tcb_stack, init_tcb, init_thread,
  do_thread_create, sr_spie,
}

-- The task `tcb` of the state `k`, when `switch_to` loads it for the first time: it goes on at
-- `ret_from_exception`, with a trap frame from which the user's program starts.
pub record Starts (m : Machine) (k : Kernel) (tcb : Ptr) (user_stack entry_point : ℕ)
    (a0 a1 a2 a3 : ℕ) : Type 0 where
  pub ra : (load_context tcb k).cpu.ra ≡ m.ret_from_exception
  pub frame : (load_context tcb k).cpu.sp + 288 ≡ tcb
  pub sp : k.stack ((load_context tcb k).cpu.sp + 16) ≡ user_stack
  pub tp : k.stack ((load_context tcb k).cpu.sp + 32) ≡ tcb
  pub arg0 : k.stack ((load_context tcb k).cpu.sp + 80) ≡ a0
  pub arg1 : k.stack ((load_context tcb k).cpu.sp + 88) ≡ a1
  pub arg2 : k.stack ((load_context tcb k).cpu.sp + 96) ≡ a2
  pub arg3 : k.stack ((load_context tcb k).cpu.sp + 104) ≡ a3
  pub sepc : k.stack ((load_context tcb k).cpu.sp + 264) ≡ entry_point
  pub sstatus : k.stack ((load_context tcb k).cpu.sp + 256) ≡ sr_spie
  pub user_sp : (k.pcb tcb).user_sp ≡ user_stack

init_tcb_stack-Starts :
    (m : Machine) (user_stack entry_point : ℕ) (tcb : Ptr) (a0 a1 a2 a3 : ℕ) (k : Kernel)
    → 400 ≤ tcb
    → tcb < 2 ^ 64
    → Starts m
        (init_tcb_stack m tcb user_stack entry_point tcb a0 a1 a2 a3 k)
        tcb
        user_stack
        entry_point
        a0
        a1
        a2
        a3
unfolding init_tcb_stack store_regs store_switchto load_context
init_tcb_stack-Starts m user_stack entry_point tcb a0 a1 a2 a3 k low high = record {
  ra = ground arith;
  frame = ground arith;
  sp = ground arith;
  tp = ground arith;
  arg0 = ground arith;
  arg1 = ground arith;
  arg2 = ground arith;
  arg3 = ground arith;
  sepc = ground arith;
  sstatus = ground arith;
  user_sp = ground arith;
}

-- A thread's start does not depend on the lists.
Starts-links :
    {m : Machine} {k : Kernel} {tcb : Ptr} {user_stack entry_point a0 a1 a2 a3 : ℕ} (l : Links)
    → Starts m k tcb user_stack entry_point a0 a1 a2 a3
    → Starts m (record k { links = l }) tcb user_stack entry_point a0 a1 a2 a3
unfolding load_context
Starts-links l s = record {
  ra = s.ra;
  frame = s.frame;
  sp = s.sp;
  tp = s.tp;
  arg0 = s.arg0;
  arg1 = s.arg1;
  arg2 = s.arg2;
  arg3 = s.arg3;
  sepc = s.sepc;
  sstatus = s.sstatus;
  user_sp = s.user_sp;
}

-- Where the stores of `init_tcb_stack` stay.
init_tcb_stack-outside :
    (m : Machine) (user_stack entry_point : ℕ) (tcb : Ptr) (a0 a1 a2 a3 : ℕ) (k : Kernel) (q : Ptr)
    → 400 ≤ tcb
    → tcb < 2 ^ 64
    → (q + 400 < tcb) ⊎ (tcb ≤ q)
    → (init_tcb_stack m tcb user_stack entry_point tcb a0 a1 a2 a3 k).stack q ≡ k.stack q
unfolding init_tcb_stack store_regs store_switchto
init_tcb_stack-outside m user_stack entry_point tcb a0 a1 a2 a3 k q low high out = ground arith

init_tcb_stack-links :
    (m : Machine) (user_stack entry_point : ℕ) (tcb : Ptr) (a0 a1 a2 a3 : ℕ) (k : Kernel)
    → (init_tcb_stack m tcb user_stack entry_point tcb a0 a1 a2 a3 k).links ≡ k.links
unfolding init_tcb_stack store_regs store_switchto
init_tcb_stack-links m user_stack entry_point tcb a0 a1 a2 a3 k = refl

-- What a new thread with its block at `tcb` is, in the group with the nodes `xs`.
pub record Created (m : Machine) (k k' : Kernel) (tcb : Ptr) (xs : List Ptr) (user_stack func : ℕ)
    (a0 a1 a2 a3 : ℕ) : Type 0 where
  pub starts : Starts m k' tcb user_stack func a0 a1 a2 a3
  pub ready : (k'.pcb tcb).status ≡ task_ready
  pub pid : (k'.pcb tcb).pid ≡ (k.pcb k.current_running).pid
  pub group : IsRing k'.links (thread_group_of k.current_running) (thread_group_of tcb ∷ xs)
  pub alone : IsRing k'.links (list_of tcb) []
  pub others : (p : Ptr) → (p == tcb) ≡ false → k'.pcb p ≡ k.pcb p
  pub stacks : (q : Ptr) → (q + 400 < tcb) ⊎ (tcb ≤ q) → k'.stack q ≡ k.stack q
  pub current : k'.current_running ≡ k.current_running
  pub cpu : k'.cpu ≡ k.cpu

module _ (m : Machine) (k : Kernel) (tcb : Ptr) {xs : List Ptr} (low : 400 ≤ tcb)
    (high : tcb + 72 < 2 ^ 64) (ring : IsRing k.links (thread_group_of k.current_running) xs)
    (new_group : has (thread_group_of tcb) (thread_group_of k.current_running ∷ xs) ≡ false)
    (new_list : has (list_of tcb) (thread_group_of k.current_running ∷ xs) ≡ false) where
  tcb_links : Links
  tcb_links = init_list_head (thread_group_of tcb) (init_list_head (list_of tcb) k.links)

  tcb_links-group : IsRing tcb_links (thread_group_of k.current_running) xs
  unfolding tcb_links
  tcb_links-group =
      IsRing-frame (thread_group_of tcb ∷ []) (init_list_head-SameOutside (thread_group_of tcb) _)
        (λ q i.
          ground (arith, has_ne (thread_group_of tcb) q (thread_group_of k.current_running ∷ xs)))
        (IsRing-frame (list_of tcb ∷ []) (init_list_head-SameOutside (list_of tcb) k.links)
          (λ q i. ground (arith, has_ne (list_of tcb) q (thread_group_of k.current_running ∷ xs)))
          ring)

  tcb_links-alone : IsRing tcb_links (list_of tcb) []
  unfolding tcb_links
  tcb_links-alone =
      IsRing-frame (thread_group_of tcb ∷ []) (init_list_head-SameOutside (thread_group_of tcb) _)
        (λ q i. ground arith) (init_list_head-IsRing (list_of tcb) k.links)

  init_thread-Created :
      (user_stack func a0 a1 a2 a3 kern user : ℕ)
      → Created m k
          (init_thread m tcb user_stack func a0 a1 a2 a3
            (record k { kern_mem_curr = kern; user_mem_curr = user }))
          tcb
          xs
          user_stack
          func
          a0
          a1
          a2
          a3
  unfolding init_thread init_tcb tcb_links init_tcb_stack store_regs store_switchto
  init_thread-Created user_stack func a0 a1 a2 a3 kern user =
      let (joined, same) = list_add-IsRing (thread_group_of tcb) tcb_links-group new_group in
      record {
        starts = Starts-links _ (
            init_tcb_stack-Starts m user_stack func tcb a0 a1 a2 a3
              (init_tcb tcb (record k { kern_mem_curr = kern; user_mem_curr = user })) low
              (omega arith));
        ready = ground arith;
        pid = ground arith;
        group = joined;
        alone =
            IsRing-frame (thread_group_of tcb ∷ thread_group_of k.current_running ∷ xs) same
              (λ q i. ground (arith)) tcb_links-alone;
        others = λ p ne. ground arith;
        stacks = λ q out.
            init_tcb_stack-outside m user_stack func tcb a0 a1 a2 a3
              (init_tcb tcb (record k { kern_mem_curr = kern; user_mem_curr = user })) q low
              (omega arith) out;
        current = refl;
        cpu = refl;
      }

below-page : (c : ℕ) → c + 8192 ≤ 2 ^ 64 → below ((c + page_size) % 2 ^ 64) tcb_size ≡ c + 4024
below-page c h = omega arith

above_pages : (c : ℕ) → c + 69632 ≤ 2 ^ 64 → (c + page_size * 16) % 2 ^ 64 ≡ c + 65536
above_pages c h = omega arith

-- With the two allocators at a page and room left, do_thread_create makes a ready thread with the
-- caller's pid, first in the caller's thread group and on no other list, that starts at its
-- function with its four arguments on its own stacks when it is first switched to, and leaves the
-- other tasks and their stacks as they are, if the new block's nodes are not on the group's ring.
pub do_thread_create-Created :
    (m : Machine) (k : Kernel) {xs : List Ptr} (func a0 a1 a2 a3 : ℕ)
    → k.kern_mem_curr % 4096 ≡ 0
    → k.kern_mem_curr + 8192 ≤ 2 ^ 64
    → k.user_mem_curr % 4096 ≡ 0
    → k.user_mem_curr + 69632 ≤ 2 ^ 64
    → IsRing k.links (thread_group_of k.current_running) xs
    → let tcb = k.kern_mem_curr + 4024 in
      let group = thread_group_of k.current_running ∷ xs in
      has (thread_group_of tcb) group ≡ false
      → has (list_of tcb) group ≡ false
      → Created m k
          (do_thread_create m func a0 a1 a2 a3 k)
          tcb
          xs
          (k.user_mem_curr + 65536)
          func
          a0
          a1
          a2
          a3
unfolding do_thread_create
do_thread_create-Created m k func a0 a1 a2 a3 kern_page kern_room user_page user_room ring group
      list =
    rw
      (
        kernel-exact 1 k kern_page (omega arith),
        user-exact 16 (record k { kern_mem_curr = k.kern_mem_curr + 1 * 4096 }) user_page
            (omega arith),
        below-page k.kern_mem_curr kern_room,
        above_pages k.user_mem_curr user_room,
      )
      (init_thread-Created m k (k.kern_mem_curr + 4024) (omega arith) (omega arith) ring group list
        (k.user_mem_curr + 65536) func a0 a1 a2 a3 (k.kern_mem_curr + 1 * 4096)
        (k.user_mem_curr + 16 * 4096))
