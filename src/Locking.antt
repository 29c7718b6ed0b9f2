-- ===== src/Locking.antt =====
-- kernel/locking/lock.c and `atomic_swap` of arch/riscv/include/atomic.h. A lock is named by its
-- index in `mlocks`; `none` is an access outside the array, or a loop that outlasts its fuel.
pub mod Contend
pub mod HandOff
pub mod Keys
use ucas_oslab_project.Common.{
  ℕ, zero, suc, ◌+◌, Bool, true, false, Option, none, some, List, [], ◌∷◌, ◌==◌, if◌then◌else◌,
  get_elem?, set,
}
use ucas_oslab_project.Common.Int.{ℤ, pos, negsuc}
use ucas_oslab_project.LinkedList.{Ptr, init_list_head, list_empty}
use ucas_oslab_project.Kernel.{
  LockStatus, unlocked, locked, MutexLock, Machine, Kernel, list_of, block_queue,
}
use ucas_oslab_project.Sched.{do_block, do_unblock, do_scheduler}

abbrev pub lock_num : ℕ
lock_num = 16

infix 50 ◌==ℤ◌
abbrev pub ◌==ℤ◌ : ℤ → ℤ → Bool
pos a ==ℤ pos b = a == b
pos a ==ℤ negsuc b = false
negsuc a ==ℤ pos b = false
negsuc a ==ℤ negsuc b = a == b

-- The key -1 marks a lock that no program has asked for.
abbrev pub no_key : ℤ
no_key = negsuc 0

abbrev pub is_unlocked : LockStatus → Bool
is_unlocked unlocked = true
is_unlocked locked = false

-- `mlocks[i]`, with an `int` for the index
abbrev pub lock_at : Kernel → ℤ → Option MutexLock
lock_at k (pos i) = get_elem? k.mlocks i
lock_at k (negsuc i) = none

abbrev pub set_lock : ℕ → MutexLock → Kernel → Kernel
set_lock i l k = record k { mlocks = set k.mlocks i l }

-- `atomic_swap` on a lock's status: the old status, and the lock with the new one.
unfoldable pub atomic_swap : LockStatus → MutexLock → LockStatus × MutexLock
atomic_swap val l = (l.status, record l { status = val })

unfoldable pub spin_lock_init : MutexLock → MutexLock
spin_lock_init l = record l { status = unlocked }

unfoldable pub spin_lock_try_acquire : MutexLock → LockStatus × MutexLock
spin_lock_try_acquire l = atomic_swap locked l

-- `while (spin_lock_try_acquire(lock) == LOCKED);`
unfoldable pub spin_lock_acquire : ℕ → MutexLock → Option MutexLock
spin_lock_acquire zero l = none
spin_lock_acquire (suc fuel) l =
    let (status, l') = spin_lock_try_acquire l in
    let again = spin_lock_acquire fuel l' in if is_unlocked status then some l' else again

unfoldable pub spin_lock_release : MutexLock → MutexLock
spin_lock_release l = (atomic_swap unlocked l).1

-- The body of the loop of `init_locks`, and its first `n` rounds.
unfoldable pub init_lock : Machine → ℕ → Kernel → Kernel
init_lock m i k =
    let k1 = set_lock i (record { status = unlocked; key = no_key }) k in
    record k1 { links = init_list_head (block_queue m i) k1.links }

unfoldable pub init_rounds : Machine → ℕ → Kernel → Kernel
init_rounds m zero k = k
init_rounds m (suc n) k = init_lock m n (init_rounds m n k)

unfoldable pub init_locks : Machine → Kernel → Kernel
init_locks m k = init_rounds m lock_num k

-- The first lock from index `i` on whose key is `key`.
unfoldable pub find_key : ℤ → ℕ → List MutexLock → Option ℕ
find_key key i [] = none
find_key key i (l ∷ ls) =
    let rest = find_key key (suc i) ls in if l.key ==ℤ key then some i else rest

unfoldable pub do_mutex_lock_init : ℤ → Kernel → ℤ × Kernel
do_mutex_lock_init key k = elim (find_key key 0 k.mlocks) [
  | some i ↦ (pos i, k)
  | none ↦ elim (find_key no_key 0 k.mlocks) [
    | some i ↦ (
      pos i,
      elim (get_elem? k.mlocks i) [ some l ↦ set_lock i (record l { key = key }) k | none ↦ k ],
    )
    | none ↦ (negsuc 0, k)
  ]
]

-- `do_mutex_lock_acquire` and `do_mutex_lock_release` on the lock `l` at index `i`
unfoldable pub acquire : Machine → ℕ → MutexLock → Kernel → Option Kernel
acquire m i l k =
    if l.key ==ℤ no_key
    then some k
    else let (status, l') = spin_lock_try_acquire l in
      let k1 = set_lock i l' k in
      if is_unlocked status
      then some k1
      else do_scheduler m (do_block (list_of k1.current_running) (block_queue m i) k1)

unfoldable pub do_mutex_lock_acquire : Machine → ℤ → Kernel → Option Kernel
do_mutex_lock_acquire m (pos i) k = elim (get_elem? k.mlocks i) [
  | none ↦ none
  | some l ↦ acquire m i l k
]
do_mutex_lock_acquire m (negsuc i) k = none

unfoldable pub release : Machine → ℕ → MutexLock → Kernel → Kernel
release m i l k =
    if l.key ==ℤ no_key
    then k
    else if list_empty (block_queue m i) k.links
    then set_lock i (spin_lock_release l) k
    else do_unblock m (k.links.next (block_queue m i)) k

unfoldable pub do_mutex_lock_release : Machine → ℤ → Kernel → Option Kernel
do_mutex_lock_release m (pos i) k = elim (get_elem? k.mlocks i) [
  | none ↦ none
  | some l ↦ some (release m i l k)
]
do_mutex_lock_release m (negsuc i) k = none
