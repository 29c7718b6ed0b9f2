-- ===== src/Examples/States.antt =====
-- A small machine: task A at 2000 runs, B at 2100 is ready, C at 2200 sleeps until second 5.
use ucas_oslab_project.Common.{ℕ, ◌+◌, refl, [], ◌∷◌, arith, ◌==◌, if◌then◌else◌}
use ucas_oslab_project.Common.Int.{pos, negsuc}
use ucas_oslab_project.LinkedList.{Ptr, Links, list_add_tail}
use ucas_oslab_project.Kernel.{
  TaskStatus, task_blocked, task_running, task_ready, Pcb, unlocked, locked, Machine, Kernel,
}
use ucas_oslab_project.Sched.Dispatch.{IsSched}

-- Every node is on no list.
abbrev pub detached : Links
detached = record { next = λ p. p; prev = λ p. p }

abbrev pub machine : Machine
machine = record {
  ready_queue = 1000;
  sleep_queue = 1100;
  mlocks = 3000;
  ret_from_exception = 4000;
  rdtime = λ n. 100 + n;
  fuel = 8;
}

abbrev pub task : TaskStatus → ℕ → Pcb
task st wakeup = record {
  kernel_sp = 5000;
  user_sp = 6000;
  pid = 1;
  status = st;
  cursor_x = pos 0;
  cursor_y = pos 0;
  wakeup_time = wakeup;
}

abbrev pub tasks : Ptr → Pcb
tasks p =
    if p == 2000
    then task task_running 0
    else if p == 2100
    then task task_ready 0
    else task task_blocked 5

abbrev pub kernel : Links → Kernel
kernel l = record {
  links = l;
  pcb = tasks;
  current_running = 2000;
  mlocks =
      record { status = locked; key = pos 7 }
      ∷ record { status = unlocked; key = pos 9 }
      ∷ record { status = unlocked; key = negsuc 0 }
      ∷ [];
  time_elapsed = 0;
  time_base = 10;
  reads = 0;
  kern_mem_curr = 8192;
  user_mem_curr = 16384;
  cpu = record { ra = 77; sp = 9000; s = λ i. i + 50 };
  stack = λ p. p;
}

-- B is ready and C sleeps.
abbrev pub start : Kernel
start = kernel (list_add_tail 2116 1000 (list_add_tail 2216 1100 detached))

-- Nobody is ready, and nobody sleeps.
abbrev pub alone : Kernel
alone = kernel detached

-- C waits for the lock 0 in place of sleeping.
abbrev pub waited : Kernel
waited = kernel (list_add_tail 2116 1000 (list_add_tail 2216 3008 detached))

pub start-IsSched : IsSched machine start (2116 ∷ []) (2216 ∷ [])
unfolding list_add_tail
start-IsSched = record {
  queued = record {
    ready_ring = record { chain = (refl, refl, (refl, refl)); distinct = (refl, (refl, tt)) };
    sleep_ring = record { chain = (refl, refl, (refl, refl)); distinct = (refl, (refl, tt)) };
    apart = λ q i. ground arith;
    valid = λ q i. ground arith;
  };
  waiting = λ q i. ground arith;
  asleep = λ q i. ground arith;
  current = λ run. ((refl, refl), (refl, refl));
}

pub alone-IsSched : IsSched machine alone [] []
alone-IsSched = record {
  queued = record {
    ready_ring = record { chain = (refl, refl); distinct = (refl, tt) };
    sleep_ring = record { chain = (refl, refl); distinct = (refl, tt) };
    apart = λ q i. ground arith;
    valid = λ q i. ground arith;
  };
  waiting = λ q i. ground arith;
  asleep = λ q i. ground arith;
  current = λ run. ((refl, refl), (refl, refl));
}

pub waited-IsSched : IsSched machine waited (2116 ∷ []) []
unfolding list_add_tail
waited-IsSched = record {
  queued = record {
    ready_ring = record { chain = (refl, refl, (refl, refl)); distinct = (refl, (refl, tt)) };
    sleep_ring = record { chain = (refl, refl); distinct = (refl, tt) };
    apart = λ q i. ground arith;
    valid = λ q i. ground arith;
  };
  waiting = λ q i. ground arith;
  asleep = λ q i. ground arith;
  current = λ run. ((refl, refl), (refl, refl));
}
