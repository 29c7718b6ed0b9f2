-- ===== src/Interrupts/Timer.antt =====
-- kernel/irq/irq.c: a timer interrupt asks for the next one and preempts the current task.
use ucas_oslab_project.Common.{◌+◌, ◌%◌, ◌^◌, ◌<◌, ◌≡◌, refl, ap, some, List, ◌++◌, length}
use ucas_oslab_project.LinkedList.{Ptr}
use ucas_oslab_project.Kernel.{Machine, Kernel}
use ucas_oslab_project.Sched.{get_ticks}
use ucas_oslab_project.Sched.Wake.{Woke}
use ucas_oslab_project.Sched.Sleep.{wakers, sleepers}
use ucas_oslab_project.Sched.Dispatch.{IsSched}
use ucas_oslab_project.Sched.RoundRobin.{Turn, queues, do_scheduler-Turn}
use ucas_oslab_project.Interrupts.{do_irq_timer, timer_interval}

get_ticks-IsSched :
    (m : Machine) (k : Kernel) {ready sleeping : List Ptr}
    → IsSched m k ready sleeping
    → IsSched m (get_ticks m k).1 ready sleeping
unfolding get_ticks
get_ticks-IsSched m k s = record {
  queued = record {
    ready_ring = s.queued.ready_ring;
    sleep_ring = s.queued.sleep_ring;
    apart = s.queued.apart;
    valid = s.queued.valid;
  };
  waiting = s.waiting;
  asleep = s.asleep;
  current = s.current;
}

get_ticks-rdtime : (m : Machine) (k : Kernel) → (get_ticks m k).0 ≡ m.rdtime k.reads
unfolding get_ticks
get_ticks-rdtime m k = refl

-- In the scheduler's invariant, the timer interrupt asks for the next one 150000 ticks (modulo
-- 2^64) after its read of the clock and takes a turn of the scheduler, which ends, given more fuel
-- than sleepers.
pub do_irq_timer-Turn :
    (m : Machine) (k : Kernel) (ready sleeping : List Ptr)
    → IsSched m k ready sleeping
    → length sleeping < m.fuel
    → let k0 = (get_ticks m k).1 in
      ((do_irq_timer m k).0 ≡ (m.rdtime k.reads + timer_interval) % 2 ^ 64)
      × ((k1 : Kernel) × (k' : Kernel) × ((do_irq_timer m k).1 ≡ some k')
          × Woke m k0 k1
              (queues m ready sleeping)
              ready
              (wakers m k0 sleeping)
              (sleepers m k0 sleeping)
          × Turn m k1 k' (ready ++ wakers m k0 sleeping) (sleepers m k0 sleeping))
unfolding do_irq_timer
do_irq_timer-Turn m k ready sleeping s enough = (
  ap (λ t. (t + timer_interval) % 2 ^ 64) (get_ticks-rdtime m k),
  do_scheduler-Turn m (get_ticks m k).1 ready sleeping (get_ticks-IsSched m k s) enough,
)
