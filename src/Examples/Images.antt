-- ===== src/Examples/Images.antt =====
-- The theorems on kernel/loader with a disk whose byte at each place is the place's number.
use ucas_oslab_project.Common.{ℕ, ◌+◌, ◌-◌, ◌*◌, ◌≡◌, arith, leb, ltb, ◌&&◌, if◌then◌else◌}
use ucas_oslab_project.LinkedList.{Ptr}
use ucas_oslab_project.Loader.{TaskInfo, load_task}
use ucas_oslab_project.Loader.Image.{SdRead, load_task-exact, load_task-shifted}

abbrev pub disk : ℕ → ℕ
disk n = n

abbrev pub sd_read : (mem_address num_of_blocks block_id : ℕ) → (Ptr → ℕ) → Ptr → ℕ
sd_read addr n block mem q =
    if leb addr q && ltb q (addr + n * 512) then disk (block * 512 + (q - addr)) else mem q

sd_read-SdRead : SdRead sd_read disk
sd_read-SdRead addr n block mem j h = ground arith

abbrev blank : Ptr → ℕ
blank q = 0

abbrev pub inside : TaskInfo
inside = record { begin = 700; end = 1500 }

abbrev pub aligned : TaskInfo
aligned = record { begin = 1024; end = 1500 }

load_task-exact_example : load_task sd_read 2 1 inside blank (0x52010000 + 400) ≡ disk (700 + 400)
load_task-exact_example =
    load_task-exact sd_read disk sd_read-SdRead 2 1 inside blank (omega arith) (omega arith)
      (omega arith) (λ e. omega arith) (λ e. omega arith) 400 (omega arith)

load_task-shifted_example : load_task sd_read 2 1 aligned blank (0x52010000 + 5) ≡ disk (512 + 5)
load_task-shifted_example =
    load_task-shifted sd_read disk sd_read-SdRead 2 1 aligned blank (omega arith) (omega arith)
      (omega arith) (omega arith) (omega arith) 5 (omega arith) (omega arith)
