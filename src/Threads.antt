-- ===== src/Threads.antt =====
-- kernel/sched/thread.c, with the layout of `regs_context_t` and `switchto_context_t`.
pub mod Create
pub mod Yield
use ucas_oslab_project.Common.{ℕ, ◌+◌, ◌-◌, ◌*◌, ◌%◌, ◌^◌}
use ucas_oslab_project.LinkedList.{Ptr, update, init_list_head, list_add}
use ucas_oslab_project.Kernel.{
  task_running, task_ready, Machine, Kernel, list_of, thread_group_of, group_entry, set_status,
}
use ucas_oslab_project.Memory.{page_size, alloc_kernel_page, alloc_user_page}
use ucas_oslab_project.Sched.{switch_to}

abbrev pub regs_context_size : ℕ
regs_context_size = 288

abbrev pub switchto_context_size : ℕ
switchto_context_size = 112

abbrev pub tcb_size : ℕ
tcb_size = 72

abbrev pub sr_spie : ℕ
sr_spie = 0x20

-- Subtraction on 64 bits.
abbrev pub below : Ptr → ℕ → Ptr
below p n = (p + 2 ^ 64 - n) % 2 ^ 64

abbrev pub store : Ptr → ℕ → Kernel → Kernel
store p v k = record k { stack = update k.stack p v }

-- The words of the trap frame at `pt_regs`.
unfoldable pub store_regs :
    (pt_regs user_stack entry_point : ℕ) (tcb : Ptr) (a0 a1 a2 a3 : ℕ) → Kernel → Kernel
store_regs pt_regs user_stack entry_point tcb a0 a1 a2 a3 k =
    let k1 = store (pt_regs + 16) user_stack k in
    let k2 = store (pt_regs + 32) tcb k1 in
    let k3 = store (pt_regs + 80) a0 k2 in
    let k4 = store (pt_regs + 88) a1 k3 in
    let k5 = store (pt_regs + 96) a2 k4 in
    let k6 = store (pt_regs + 104) a3 k5 in
    let k7 = store (pt_regs + 264) entry_point k6 in store (pt_regs + 256) sr_spie k7

-- The saved stack pointers, and the frame that `switch_to` finds.
unfoldable pub store_switchto : Machine → (pt_switchto user_stack : ℕ) (tcb : Ptr) → Kernel → Kernel
store_switchto m pt_switchto user_stack tcb k =
    let k1 = record k {
      pcb = update k.pcb tcb (record (k.pcb tcb) { kernel_sp = pt_switchto; user_sp = user_stack });
    } in
    let k2 = store pt_switchto m.ret_from_exception k1 in store (pt_switchto + 8) pt_switchto k2

unfoldable pub init_tcb_stack :
    Machine
    → (kernel_stack user_stack entry_point : ℕ) (tcb : Ptr) (a0 a1 a2 a3 : ℕ) → Kernel
    → Kernel
init_tcb_stack m kernel_stack user_stack entry_point tcb a0 a1 a2 a3 k =
    let pt_regs = below kernel_stack regs_context_size in
    let k1 = store_regs pt_regs user_stack entry_point tcb a0 a1 a2 a3 k in
    store_switchto m (below pt_regs switchto_context_size) user_stack tcb k1

-- The thread's own fields and its two list nodes, in `do_thread_create`.
unfoldable pub init_tcb : Ptr → Kernel → Kernel
init_tcb tcb k =
    let k1 = record k {
      pcb =
          update k.pcb tcb
            (record (k.pcb tcb) { pid = (k.pcb k.current_running).pid; status = task_ready });
    } in
    let k2 = record k1 { links = init_list_head (list_of tcb) k1.links } in
    record k2 { links = init_list_head (thread_group_of tcb) k2.links }

-- `do_thread_create` once its pages are there
unfoldable pub init_thread :
    Machine → (tcb : Ptr) (user_stack func : ℕ) (a0 a1 a2 a3 : ℕ) → Kernel → Kernel
init_thread m tcb user_stack func a0 a1 a2 a3 k =
    let k1 = init_tcb_stack m tcb user_stack func tcb a0 a1 a2 a3 (init_tcb tcb k) in
    record k1 {
      links = list_add (thread_group_of tcb) (thread_group_of k1.current_running) k1.links;
    }

unfoldable pub do_thread_create : Machine → (func arg0 arg1 arg2 arg3 : ℕ) → Kernel → Kernel
do_thread_create m func arg0 arg1 arg2 arg3 k =
    let (kernel_page, k1) = alloc_kernel_page 1 k in
    let (user_page, k2) = alloc_user_page 16 k1 in
    let kernel_stack = below ((kernel_page + page_size) % 2 ^ 64) tcb_size in
    init_thread m kernel_stack ((user_page + page_size * 16) % 2 ^ 64) func arg0 arg1 arg2 arg3 k2

-- `do_thread_yield` up to its call of `switch_to`
unfoldable pub pass_on : Kernel → Kernel
pass_on k =
    let pre_running = k.current_running in
    let k1 = record k {
      current_running = group_entry (k.links.next (thread_group_of pre_running));
    } in
    let k2 = set_status pre_running task_ready k1 in
    let k3 = set_status k2.current_running task_running k2 in
    record k3 { links = init_list_head (list_of k3.current_running) k3.links }

unfoldable pub do_thread_yield : Kernel → Kernel
do_thread_yield k = let k1 = pass_on k in switch_to k.current_running k1.current_running k1
