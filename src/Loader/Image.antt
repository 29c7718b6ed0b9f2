-- ===== src/Loader/Image.antt =====
-- kernel/loader/loader.c: which bytes of the image a task's memory gets.
use ucas_oslab_project.Common.{ℕ, ◌+◌, ◌-◌, ◌*◌, ◌/◌, ◌%◌, ◌^◌, ◌≤◌, ◌<◌, ◌≡◌, ◌≢◌, ◌∙◌, ap, arith}
use ucas_oslab_project.LinkedList.{Ptr}
use ucas_oslab_project.Strings.{Mem}
use ucas_oslab_project.Strings.Copy.{memcpy-read}
use ucas_oslab_project.Loader.{
  task_mem_base, nbytes2sec, TaskInfo, begin_block, end_block, num_blocks, load_task,
}

-- Where the blocks that are read for a task start, and how many they are.
starts-inside :
    (t : TaskInfo) → t.begin % 512 ≢ 0 → t.begin < 2 ^ 31 → begin_block t ≡ t.begin / 512
unfolding begin_block nbytes2sec
starts-inside t h b = ground arith

ends-inside :
    (t : TaskInfo)
    → (t.end - 1) % 512 ≢ 0
    → 0 < t.end
    → t.end < 2 ^ 31
    → end_block t ≡ (t.end - 1) / 512
unfolding end_block nbytes2sec
ends-inside t h pos b =
    let last : (t.end + 2 ^ 32 - 1) % 2 ^ 32 ≡ t.end - 1 = omega arith in rw last (ground arith)

starts-aligned :
    (t : TaskInfo)
    → t.begin % 512 ≡ 0
    → 512 ≤ t.begin
    → t.begin < 2 ^ 31
    → begin_block t ≡ t.begin / 512 - 1
unfolding begin_block nbytes2sec
starts-aligned t h low b = ground arith

blocks-inside :
    (t : TaskInfo)
    → t.begin % 512 ≢ 0
    → (t.end - 1) % 512 ≢ 0
    → t.begin < t.end
    → t.end < 2 ^ 31
    → num_blocks t ≡ (t.end - 1) / 512 - t.begin / 512 + 1
unfolding num_blocks
blocks-inside t first last some_bytes range =
    omega (arith, starts-inside t first (omega arith), ends-inside t last (omega arith) range)

blocks-aligned :
    (t : TaskInfo)
    → t.begin % 512 ≡ 0
    → 512 ≤ t.begin
    → t.begin < t.end
    → t.end < 2 ^ 31
    → 1 ≤ num_blocks t
unfolding num_blocks begin_block end_block nbytes2sec
blocks-aligned t first low some_bytes range = ground arith

-- What is used of the firmware's read: the bytes of the sectors asked for, at the address given.
abbrev pub SdRead : ((mem_address num_of_blocks block_id : ℕ) → Mem → Mem) → (ℕ → ℕ) → Type 0
SdRead sd_read disk =
    (addr n block : ℕ) (mem : Ptr → ℕ) (j : ℕ)
    → j < n * 512
    → sd_read addr n block mem (addr + j) ≡ disk (block * 512 + j)

module _ (sd_read : (mem_address num_of_blocks block_id : ℕ) → Mem → Mem) (disk : ℕ → ℕ)
    (reads : SdRead sd_read disk) (task_num i : ℕ) (t : TaskInfo) (mem : Ptr → ℕ)
    (listed : i < task_num) (size : t.end ≤ t.begin + 2 ^ 16) (range : t.end < 2 ^ 31) where
  -- A byte of the task is the byte of the disk at its place in the blocks read.
  load_task-read :
      (j : ℕ)
      → j < t.end - t.begin
      → t.begin % 512 + j < num_blocks t * 512
      → load_task sd_read task_num i t mem (task_mem_base + i * 2 ^ 16 + j)
        ≡ disk (begin_block t * 512 + (t.begin % 512 + j))
  unfolding load_task
  load_task-read j h inside =
      let count : (t.end + 2 ^ 32 - t.begin) % 2 ^ 32 ≡ t.end - t.begin = omega arith in
      let buffer = task_mem_base + (task_num + 1) * 2 ^ 16 in
      let mem1 = sd_read buffer (num_blocks t) (begin_block t) mem in
      memcpy-read (task_mem_base + i * 2 ^ 16) (buffer + t.begin % 512)
        ((t.end + 2 ^ 32 - t.begin) % 2 ^ 32) mem1 j (omega arith) (omega (arith, count))
      ∙ ap mem1 (omega arith)
      ∙ reads buffer (num_blocks t) (begin_block t) mem (t.begin % 512 + j) inside

  -- If the firmware reads the sectors asked for, a task that is in the table, of at most 2^16
  -- bytes, ends below 2^31, and neither begins at a multiple of 512 nor has its last byte at one,
  -- gets each of its bytes from the image at its entry point.
  pub load_task-exact :
      t.begin % 512 ≢ 0
      → (t.end - 1) % 512 ≢ 0
      → (j : ℕ) → j < t.end - t.begin
      → load_task sd_read task_num i t mem (task_mem_base + i * 2 ^ 16 + j) ≡ disk (t.begin + j)
  load_task-exact first last j h =
      load_task-read j h (omega (arith, blocks-inside t first last (omega arith) range))
      ∙ ap disk (omega (arith, starts-inside t first (omega arith)))

  -- If the firmware reads the sectors asked for, a task that is in the table, of at most 2^16
  -- bytes, ends below 2^31, and begins at a multiple of 512 that is not 0 gets, for its first 512
  -- bytes, those that stand 512 bytes before it in the image.
  pub load_task-shifted :
      t.begin % 512 ≡ 0
      → 512 ≤ t.begin
      → (j : ℕ) → j < t.end - t.begin
      → j < 512
      → load_task sd_read task_num i t mem (task_mem_base + i * 2 ^ 16 + j)
        ≡ disk (t.begin - 512 + j)
  load_task-shifted first low j h near =
      load_task-read j h (omega (arith, blocks-aligned t first low (omega arith) range))
      ∙ ap disk (omega (arith, starts-aligned t first low (omega arith)))
