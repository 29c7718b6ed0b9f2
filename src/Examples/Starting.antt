-- ===== src/Examples/Starting.antt =====
-- The theorems on init/main.c for two tasks, "a" and "b", of four bytes each, and those on the jump
-- table.
use ucas_oslab_project.Common.{
  ℕ, ◌+◌, ◌^◌, ◌<◌, ◌≡◌, refl, inl, Option, none, some, List, [], ◌∷◌, ◌==◌, if◌then◌else◌, arith,
}
use ucas_oslab_project.LinkedList.Chain.{IsRing}
use ucas_oslab_project.Kernel.{Kernel}
use ucas_oslab_project.Strings.{Mem, strcmp, memcpy}
use ucas_oslab_project.Strings.Build.{byte_at}
use ucas_oslab_project.Loader.{Disk, load_task, find_task, load_task_img}
use ucas_oslab_project.Boot.{Globals, init_pcb}
use ucas_oslab_project.Boot.Task.{TaskAt}
use ucas_oslab_project.Boot.Tasks.{Loads, init_pcb-Ready}
use ucas_oslab_project.Sched.{do_scheduler}
use ucas_oslab_project.Boot.First.{FirstTurn}
use ucas_oslab_project.Boot.Launch.{Launched, switched, init_pcb-Launched}
use ucas_oslab_project.Trap.{Hart, ret_from_exception}
use ucas_oslab_project.Bios.{BiosFunc}
use ucas_oslab_project.Bios.Jump.{
  Entry, Table, init_jmptab, bios_putstr, bios_putchar, bios_getchar, bios_sd_read, bios_sd_write,
  bios_logging, bios_set_timer, bios_read_fdt,
}
use ucas_oslab_project.Bios.Reach.{init_jmptab-reaches}
use ucas_oslab_project.Examples.States.{machine, alone}

abbrev names : Mem
names q = if q == 100 then b'a' else if q == 132 then b'b' else 0

-- The firmware reads zeros.
abbrev disk : Disk
disk = record {
  tasks = 100;
  info = λ i. record { begin = 700; end = 704 };
  task_num = 2;
  sd_read = λ addr n block mem. mem;
  fuel = 8;
}

abbrev globals : Globals
globals = record { pcb = 7000; pid0_pcb = 6900 }

abbrev entries : List ℕ
entries = 0x52000000 ∷ 0x52010000 ∷ []

abbrev after_one : Mem
after_one = load_task disk.sd_read 2 0 (disk.info 0) names

abbrev after_two : Mem
after_two = load_task disk.sd_read 2 1 (disk.info 1) after_one

loads : Loads disk 0 names entries after_two
unfolding load_task_img find_task load_task memcpy strcmp
loads = (after_one, (λ e. omega arith), refl, (after_two, (λ e. omega arith), refl, (refl, refl)))

queue-IsRing : IsRing alone.links 1000 []
queue-IsRing = record { chain = (refl, refl); distinct = (refl, tt) }

init_pcb-Ready_example :
    (k' : Kernel) × (init_pcb machine globals disk 17 names alone
      ≡ some (after_two, record k' { current_running = 6900 }))
    × IsRing k'.links 1000 (7016 ∷ 7088 ∷ [])
    × ((j : ℕ) → j < 2 → TaskAt machine globals 8192 16384 k' j (byte_at entries j))
init_pcb-Ready_example =
    init_pcb-Ready machine globals disk 17 entries names after_two alone refl refl
      (inl (omega arith)) queue-IsRing loads (omega arith) (omega arith) (omega arith) (omega arith)

sleepers-IsRing : IsRing alone.links 1100 []
sleepers-IsRing = record { chain = (refl, refl); distinct = (refl, tt) }

-- The boot code has used the page below the first that is given out.
abbrev booting : Kernel
booting = record alone { cpu = record { ra = 77; sp = 8192; s = λ i. i } }

abbrev processor : Hart
processor = record {
  x = λ r. r;
  mem = λ q. 0;
  pc = 0;
  sscratch = 0;
  sepc = 0;
  sstatus = 0;
  stval = 0;
  scause = 0;
}

-- The block of pid 0 stands at 6900, and its status is 0.
init_pcb-Launched_example :
    (k1 : Kernel) × (k2 : Kernel) × (init_pcb machine globals disk 17 names booting
      ≡ some (after_two, k1))
    × (do_scheduler machine k1 ≡ some k2)
    × FirstTurn machine globals 8192 16384 1 k2
    × Launched 0x52000000 81920 7000 (ret_from_exception (switched k2 processor))
init_pcb-Launched_example =
    init_pcb-Launched machine globals disk 17 0x52000000 (0x52010000 ∷ []) names after_two booting
      processor refl refl (inl (omega arith)) queue-IsRing loads (omega arith) (omega arith)
      (omega arith) (omega arith) (inl (omega arith)) refl sleepers-IsRing (inl (omega arith)) refl
      (omega arith) (omega arith) (inl (omega arith)) (omega arith)

-- A firmware that adds up its arguments, and answers with the service's number in bits 0 to 31.
abbrev firmware : BiosFunc ℕ
firmware a0 a1 a2 a3 a4 a5 a6 which s = (2 ^ 32 + which, s + a0 + a1 + a2)

abbrev no_kernel : Entry → ℕ → ℕ → ℕ → ℕ → ℕ → ℕ → Option (ℕ × ℕ)
no_kernel f a0 a1 a2 a3 a4 s = none

abbrev jmptab : Table
jmptab = init_jmptab (λ n. none)

init_jmptab-reaches_example :
    (bios_putstr firmware no_kernel jmptab 1000 7 ≡ some 1007)
    × (bios_putchar firmware no_kernel jmptab 1000 7 ≡ some 239)
    × (bios_getchar firmware no_kernel jmptab 7 ≡ some (2, 7))
    × (bios_sd_read firmware no_kernel jmptab 1000 20 3 7 ≡ some (11, 1030))
    × (bios_sd_write firmware no_kernel jmptab 1000 20 3 7 ≡ some (10, 1030))
    × (bios_logging firmware no_kernel jmptab 1000 7 ≡ some 1007)
    × (bios_set_timer firmware no_kernel jmptab 1000 7 ≡ some 1007)
    × (bios_read_fdt firmware no_kernel jmptab 1000 7 ≡ some (2 ^ 32 + 12, 1007))
init_jmptab-reaches_example =
    init_jmptab-reaches firmware no_kernel (λ n. none) 1000 20 3 7 (omega arith) (omega arith)
      (omega arith)
