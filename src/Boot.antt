-- ===== src/Boot.antt =====
-- init/main.c: the first tasks. The array `pcb` and the byte memory that names and images are in lie
-- apart from the kernel stacks. `none` is a name that outlasts the fuel, or more tasks than rounds.
pub mod Stack
pub mod Task
pub mod Tasks
pub mod Quiet
pub mod First
pub mod Launch
use ucas_oslab_project.Common.{
  ℕ, zero, suc, ◌+◌, ◌*◌, ◌%◌, ◌^◌, ◌==◌, Option, none, some, if◌then◌else◌,
}
use ucas_oslab_project.LinkedList.{Ptr, update, init_list_head, list_add_tail}
use ucas_oslab_project.Kernel.{task_ready, Machine, Kernel, list_of, thread_group_of}
use ucas_oslab_project.Memory.{page_size, alloc_kernel_page, alloc_user_page}
use ucas_oslab_project.Threads.{
  below, store, sr_spie, regs_context_size, switchto_context_size, store_switchto,
}
use ucas_oslab_project.Strings.{Mem}
use ucas_oslab_project.Loader.{Disk, task_info_size, load_task_img}

-- The addresses of `pcb` and `pid0_pcb`.
pub record Globals : Type 0 where
  pub pcb : Ptr
  pub pid0_pcb : Ptr

abbrev pub pcb_size : ℕ
pcb_size = 72

-- `&pcb[i]`
abbrev pub pcb_at : Globals → ℕ → Ptr
pcb_at g i = g.pcb + pcb_size * i

-- `tasks[i].name`
abbrev pub name_at : Disk → ℕ → Ptr
name_at d i = d.tasks + task_info_size * i

-- One sector, from sector 1, into the array `tasks`.
unfoldable pub init_task_info : Disk → Mem → Mem
init_task_info d mem = d.sd_read (d.tasks % 2 ^ 32) 1 1 mem

unfoldable pub init_pcb_stack :
    Machine → (kernel_stack user_stack entry_point : ℕ) (pcb : Ptr) → Kernel → Kernel
init_pcb_stack m kernel_stack user_stack entry_point pcb k =
    let pt_regs = below kernel_stack regs_context_size in
    let k1 = store (pt_regs + 16) user_stack k in
    let k2 = store (pt_regs + 32) pcb k1 in
    let k3 = store (pt_regs + 264) entry_point k2 in
    let k4 = store (pt_regs + 256) sr_spie k3 in
    store_switchto m (below pt_regs switchto_context_size) user_stack pcb k4

-- The fields of `pcb[i]` and its two list nodes.
unfoldable pub init_fields : Globals → (i : ℕ) → Kernel → Kernel
init_fields g i k =
    let p = pcb_at g i in
    let k1 = record k {
      pcb = update k.pcb p (record (k.pcb p) { pid = i + 1; status = task_ready });
    } in
    let k2 = record k1 { links = init_list_head (list_of p) k1.links } in
    record k2 { links = init_list_head (thread_group_of p) k2.links }

-- The body of the loop, from the two pages on.
unfoldable pub init_task : Machine → Globals → (i entry_point : ℕ) → Kernel → Kernel
init_task m g i entry_point k =
    let (kernel_page, k1) = alloc_kernel_page 1 k in
    let (user_page, k2) = alloc_user_page 16 k1 in
    let kernel_stack = (kernel_page + page_size) % 2 ^ 64 in
    let user_stack = (user_page + page_size * 16) % 2 ^ 64 in
    let k3 = init_fields g i k2 in
    let k4 = init_pcb_stack m kernel_stack user_stack entry_point (pcb_at g i) k3 in
    record k4 { links = list_add_tail (list_of (pcb_at g i)) m.ready_queue k4.links }

-- The loop on `i`: `rounds` are left.
unfoldable pub init_tasks :
    Machine → Globals → Disk → (rounds i : ℕ) → Mem → Kernel → Option (Mem × Kernel)
init_tasks m g d zero i mem k = none
init_tasks m g d (suc rounds) i mem k =
    if mem (name_at d i) == 0 then some (mem, k) else elim (load_task_img d (name_at d i) mem) [
      | none ↦ none
      | some (entry_point, mem') ↦
          init_tasks m g d rounds (i + 1) mem' (init_task m g i entry_point k)
    ]

unfoldable pub init_pcb : Machine → Globals → Disk → ℕ → Mem → Kernel → Option (Mem × Kernel)
init_pcb m g d rounds mem k = elim (init_tasks m g d rounds 0 mem k) [
  | none ↦ none
  | some (mem', k') ↦ some (mem', record k' { current_running = g.pid0_pcb })
]
