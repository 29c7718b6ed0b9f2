-- ===== src/Loader.antt =====
-- kernel/loader/loader.c, with `NBYTES2SEC` and `task_info_t` of include/os/task.h.
pub mod Image
pub mod Find
use ucas_oslab_project.Common.{
  ℕ, zero, suc, ◌+◌, ◌-◌, ◌*◌, ◌/◌, ◌%◌, ◌^◌, ◌==◌, Bool, true, false, Option, none, some,
  if◌then◌else◌,
}
use ucas_oslab_project.Common.Int.{ℤ, pos, negsuc}
use ucas_oslab_project.LinkedList.{Ptr}
use ucas_oslab_project.Strings.{Mem, memcpy, strcmp}

abbrev pub sector_size : ℕ
sector_size = 512

abbrev pub task_mem_base : ℕ
task_mem_base = 0x52000000

unfoldable pub nbytes2sec : ℕ → ℕ
nbytes2sec nbytes = nbytes / sector_size + (if nbytes % sector_size == 0 then 0 else 1)

-- `task_info_t`, less its name: two `uint32_t`.
pub record TaskInfo : Type 0 where
  pub begin : ℕ
  pub end : ℕ

unfoldable pub begin_block : TaskInfo → ℕ
begin_block t = (nbytes2sec t.begin + 2 ^ 32 - 1) % 2 ^ 32

unfoldable pub end_block : TaskInfo → ℕ
end_block t = (nbytes2sec ((t.end + 2 ^ 32 - 1) % 2 ^ 32) + 2 ^ 32 - 1) % 2 ^ 32

unfoldable pub num_blocks : TaskInfo → ℕ
num_blocks t = (end_block t + 2 ^ 32 - begin_block t + 1) % 2 ^ 32

-- `sd_read mem_address num_of_blocks block_id` is the firmware's `bios_sd_read`. The table has 16
-- tasks at most, so the shifts stay inside an `int` and the addresses inside 32 bits.
unfoldable pub load_task :
    (sd_read : (mem_address num_of_blocks block_id : ℕ) → Mem → Mem)
    → (task_num i : ℕ) → TaskInfo
    → Mem
    → Mem
load_task sd_read task_num i t mem =
    let buffer = task_mem_base + (task_num + 1) * 2 ^ 16 in
    let entrypoint = task_mem_base + i * 2 ^ 16 in
    let nbytes_size = (t.end + 2 ^ 32 - t.begin) % 2 ^ 32 in
    let mem1 = sd_read buffer (num_blocks t) (begin_block t) mem in
    memcpy entrypoint (buffer + t.begin % sector_size) nbytes_size mem1

abbrev pub task_info_size : ℕ
task_info_size = 32

abbrev pub is_zero : ℤ → Bool
is_zero (pos n) = n == 0
is_zero (negsuc n) = false

-- What the loader reads: the array `tasks`, at an address for the names and by index for the rest,
-- and the firmware's read. `fuel` bounds the comparison of two names.
pub record Disk : Type 0 where
  pub tasks : Ptr
  pub info : ℕ → TaskInfo
  pub task_num : ℕ
  pub sd_read : (mem_address num_of_blocks block_id : ℕ) → Mem → Mem
  pub fuel : ℕ

-- The rounds of the loop over `tasks` that are left, at the index `i`: the entry point and the
-- memory; `none` is a name that is longer than the fuel.
unfoldable pub find_task : Disk → ℕ → (i : ℕ) (taskname : Ptr) → Mem → Option (ℕ × Mem)
find_task d zero i taskname mem = some (0, mem)
find_task d (suc n) i taskname mem =
    let rest = find_task d n (i + 1) taskname mem in
    elim (strcmp d.fuel (d.tasks + task_info_size * i) taskname mem) [
      | none ↦ none
      | some r ↦
          if is_zero r
          then some (task_mem_base + i * 2 ^ 16, load_task d.sd_read d.task_num i (d.info i) mem)
          else rest
    ]

unfoldable pub load_task_img : Disk → (taskname : Ptr) → Mem → Option (ℕ × Mem)
load_task_img d taskname mem = find_task d d.task_num 0 taskname mem
