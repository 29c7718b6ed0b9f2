-- ===== src/Examples/Locks.antt =====
-- The theorems on kernel/locking at concrete states.
use ucas_oslab_project.Common.{◌≡◌, refl, some, [], ◌∷◌, ◌++◌, arith, get_elem?}
use ucas_oslab_project.Common.Int.{ℤ, pos}
use ucas_oslab_project.LinkedList.{list_add_tail}
use ucas_oslab_project.LinkedList.Chain.{IsRing}
use ucas_oslab_project.Kernel.{task_blocked, task_ready, unlocked, locked, Kernel, MutexLock}
use ucas_oslab_project.Sched.Sleep.{wakers, sleepers}
use ucas_oslab_project.Sched.Wake.{Woke}
use ucas_oslab_project.Sched.Dispatch.{status_of, IsSched}
use ucas_oslab_project.Sched.RoundRobin.{Turn, queues}
use ucas_oslab_project.Locking.{
  do_mutex_lock_init, do_mutex_lock_acquire, do_mutex_lock_release, find_key,
}
use ucas_oslab_project.Locking.Contend.{IsMutex, waiting, acquire_busy-Turn, acquire_alone}
use ucas_oslab_project.Locking.HandOff.{release-hand_off}
use ucas_oslab_project.Locking.Keys.{do_mutex_lock_init-injective, do_mutex_lock_init-repeat}
use ucas_oslab_project.Examples.States.{
  machine, start, alone, waited, start-IsSched, alone-IsSched, waited-IsSched,
}

abbrev held : MutexLock
held = record { status = locked; key = pos 7 }

abbrev idle : MutexLock
idle = record { status = unlocked; key = pos 9 }

idle-IsMutex : IsMutex machine start (2116 ∷ []) (2216 ∷ []) 1 idle []
unfolding list_add_tail
idle-IsMutex = record {
  lock = refl;
  keyed = refl;
  queue = record { chain = (refl, refl); distinct = (refl, tt) };
  free = λ e. refl;
  apart = λ q i. ground arith;
  valid = λ q i. ground arith;
}

held-IsMutex : IsMutex machine start (2116 ∷ []) (2216 ∷ []) 0 held []
unfolding list_add_tail
held-IsMutex = record {
  lock = refl;
  keyed = refl;
  queue = record { chain = (refl, refl); distinct = (refl, tt) };
  free = λ e. refl;
  apart = λ q i. ground arith;
  valid = λ q i. ground arith;
}

acquire_busy-Turn_example :
    (k1 : Kernel) × (k' : Kernel) × (do_mutex_lock_acquire machine (pos 0) start ≡ some k')
    × (status_of k' 2000 ≡ task_blocked)
    × (get_elem? k'.mlocks 0 ≡ some held)
    × IsRing k'.links 3008 (2016 ∷ [])
    × Woke machine
        (waiting machine 0 held start)
        k1
        (queues machine (2116 ∷ []) (2216 ∷ []))
        (2116 ∷ [])
        (wakers machine (waiting machine 0 held start) (2216 ∷ []))
        (sleepers machine (waiting machine 0 held start) (2216 ∷ []))
    × Turn machine k1 k'
        (2116 ∷ [] ++ wakers machine (waiting machine 0 held start) (2216 ∷ []))
        (sleepers machine (waiting machine 0 held start) (2216 ∷ []))
acquire_busy-Turn_example =
    acquire_busy-Turn machine start 0 held [] start-IsSched held-IsMutex refl refl refl
      (omega arith)

alone-IsMutex : IsMutex machine alone [] [] 0 held []
alone-IsMutex = record {
  lock = refl;
  keyed = refl;
  queue = record { chain = (refl, refl); distinct = (refl, tt) };
  free = λ e. refl;
  apart = λ q i. ground arith;
  valid = λ q i. ground arith;
}

acquire_alone_example :
    (k' : Kernel) × (do_mutex_lock_acquire machine (pos 0) alone ≡ some k')
    × (k'.current_running ≡ 2000)
    × (k'.cpu ≡ alone.cpu)
    × (get_elem? k'.mlocks 0 ≡ some (record { status = locked; key = pos 7 }))
acquire_alone_example =
    acquire_alone machine alone [] 0 held [] alone-IsSched alone-IsMutex refl refl refl
      (omega arith) refl

waited-IsMutex : IsMutex machine waited (2116 ∷ []) [] 0 held (2216 ∷ [])
unfolding list_add_tail
waited-IsMutex = record {
  lock = refl;
  keyed = refl;
  queue = record { chain = (refl, refl, (refl, refl)); distinct = (refl, (refl, tt)) };
  free = λ e. cc;
  apart = λ q i. ground arith;
  valid = λ q i. ground arith;
}

release-hand_off_example :
    (k' : Kernel) × (do_mutex_lock_release machine (pos 0) waited ≡ some k')
    × (status_of k' 2200 ≡ task_ready)
    × (k'.current_running ≡ 2000)
    × IsMutex machine k' (2116 ∷ 2216 ∷ []) [] 0 held []
    × IsSched machine k' (2116 ∷ 2216 ∷ []) []
release-hand_off_example =
    release-hand_off machine waited 0 held 2216 [] waited-IsSched waited-IsMutex refl

do_mutex_lock_init-injective_example : ◌≡◌ {A = ℤ} (pos 7) (pos 7)
unfolding do_mutex_lock_init find_key
do_mutex_lock_init-injective_example =
    do_mutex_lock_init-injective (pos 7) (pos 7) start 0 (λ e. cc e) refl refl

do_mutex_lock_init-repeat_example :
    do_mutex_lock_init (pos 8) (do_mutex_lock_init (pos 8) start).1
    ≡ do_mutex_lock_init (pos 8) start
do_mutex_lock_init-repeat_example = do_mutex_lock_init-repeat (pos 8) start
