-- ===== src/Memory.antt =====
-- kernel/mm/mm.c: the two allocators of pages, with `ROUND` of include/os/mm.h.
pub mod Round
pub mod Pages
use Prim.Native.Nat.{bit_and}
use ucas_oslab_project.Common.{ℕ, ◌+◌, ◌-◌, ◌*◌, ◌%◌, ◌^◌}
use ucas_oslab_project.Kernel.{Kernel}

abbrev pub page_size : ℕ
page_size = 4096

abbrev pub init_kernel_stack : ℕ
init_kernel_stack = 0x50500000

abbrev pub freemem_kernel : ℕ
freemem_kernel = init_kernel_stack + page_size

abbrev pub freemem_user : ℕ
freemem_user = 0x52500000

-- `ROUND(a, n)`: on 64 bits `~(n - 1)` is 2 ^ 64 - n.
unfoldable pub round_up : ℕ → ℕ → ℕ
round_up a n = bit_and ((a + n - 1) % 2 ^ 64) (2 ^ 64 - n)

unfoldable pub alloc_kernel_page : ℕ → Kernel → ℕ × Kernel
alloc_kernel_page num_page k =
    let ret = round_up k.kern_mem_curr page_size in
    (ret, record k { kern_mem_curr = (ret + num_page * page_size) % 2 ^ 64 })

unfoldable pub alloc_user_page : ℕ → Kernel → ℕ × Kernel
alloc_user_page num_page k =
    let ret = round_up k.user_mem_curr page_size in
    (ret, record k { user_mem_curr = (ret + num_page * page_size) % 2 ^ 64 })
