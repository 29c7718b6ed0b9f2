-- ===== src/Examples/Threading.antt =====
-- The theorems on kernel/sched/thread.c for the task at 2000, with a second thread at 2100.
use ucas_oslab_project.Common.{refl, [], ◌∷◌, arith}
use ucas_oslab_project.LinkedList.{list_add}
use ucas_oslab_project.LinkedList.Chain.{IsRing}
use ucas_oslab_project.Kernel.{Kernel}
use ucas_oslab_project.Sched.Dispatch.{IsSched}
use ucas_oslab_project.Threads.{do_thread_create, do_thread_yield}
use ucas_oslab_project.Threads.Create.{Created, do_thread_create-Created}
use ucas_oslab_project.Threads.Yield.{Yielded, do_thread_yield-Yielded}
use ucas_oslab_project.Examples.States.{machine, kernel, detached, alone}

abbrev pair : Kernel
pair = kernel (list_add 2156 2056 detached)

pair-IsSched : IsSched machine pair [] []
unfolding list_add
pair-IsSched = record {
  queued = record {
    ready_ring = record { chain = (refl, refl); distinct = (refl, tt) };
    sleep_ring = record { chain = (refl, refl); distinct = (refl, tt) };
    apart = λ q i. ground arith;
    valid = λ q i. ground arith;
  };
  waiting = λ q i. ground arith;
  asleep = λ q i. ground arith;
  current = λ run. ((refl, refl), (refl, refl));
}

pair-IsRing : IsRing pair.links 2056 (2156 ∷ [])
unfolding list_add
pair-IsRing = record { chain = (refl, refl, (refl, refl)); distinct = (refl, (refl, tt)) }

pub single-IsRing : IsRing alone.links 2056 []
single-IsRing = record { chain = (refl, refl); distinct = (refl, tt) }

do_thread_create-Created_example :
    Created machine alone
      (do_thread_create machine 0x52000000 1 2 3 4 alone)
      12216
      []
      81920
      0x52000000
      1
      2
      3
      4
do_thread_create-Created_example =
    do_thread_create-Created machine alone 0x52000000 1 2 3 4 refl (omega arith) refl (omega arith)
      single-IsRing refl refl

do_thread_yield-Yielded_example : Yielded machine pair (do_thread_yield pair) [] [] 2156 []
do_thread_yield-Yielded_example =
    do_thread_yield-Yielded machine pair pair-IsSched 2156 [] pair-IsRing (omega arith) (refl, refl)
      refl refl
