-- ===== src/Loader/Find.antt =====
-- kernel/loader/loader.c: the first task with the name asked for is the one that is loaded.
use ucas_oslab_project.Common.{
  ℕ, zero, suc, ◌+◌, ◌*◌, ◌^◌, ◌≤◌, ◌<◌, ◌≡◌, ◌≢◌, ◌↔◌, inl, inr, Bool-cases, ==_iff, refl, ap, ◌∙◌,
  true, some, List, ◌==◌, arith, length,
}
use ucas_oslab_project.Common.Int.{ℤ, pos, negsuc}
use ucas_oslab_project.LinkedList.{Ptr}
use ucas_oslab_project.Strings.{Mem, strcmp}
use ucas_oslab_project.Strings.Text.{IsString}
use ucas_oslab_project.Strings.Compare.{strcmp-Orders}
use ucas_oslab_project.Loader.{Disk, task_mem_base, is_zero, load_task, find_task, load_task_img}

is_zero_iff : (r : ℤ) → (is_zero r ≡ true) ↔ (r ≡ pos 0)
is_zero_iff (pos n) = (λ h. ground arith, λ h. ground arith)
is_zero_iff (negsuc n) = (λ h. cc, λ h. cc)

-- The names of the tasks, each of them read by the comparison within its fuel.
pub record Named (d : Disk) (names : ℕ → List ℕ) (mem : Mem) : Type 0 where
  pub text : (i : ℕ) → i < d.task_num → IsString mem (d.tasks + 32 * i) (names i)
  pub short : (i : ℕ) → i < d.task_num → length (names i) < d.fuel

module _ (d : Disk) (names : ℕ → List ℕ) (mem : Mem) (taskname : Ptr) (s : List ℕ)
    (named : Named d names mem) (asked : IsString mem taskname s) where
  compared :
      (i : ℕ)
      → i < d.task_num
      → (r : ℤ) × (strcmp d.fuel (d.tasks + 32 * i) taskname mem ≡ some r)
        × ((is_zero r ≡ true) ↔ (names i ≡ s))
  compared i lt =
      let (r, goes, o) =
        strcmp-Orders d.fuel mem (d.tasks + 32 * i) taskname (names i) s (named.text i lt) asked
          (named.short i lt) in
      (r, goes, ((λ h. o.equal.0 ((is_zero_iff r).0 h)), (λ e. (is_zero_iff r).1 (o.equal.1 e))))

  miss :
      (n i : ℕ)
      → i < d.task_num
      → names i ≢ s
      → find_task d (suc n) i taskname mem ≡ find_task d n (i + 1) taskname mem
  unfolding find_task
  miss n i lt ne =
      let (r, goes, zero_iff) = compared i lt in
      elim (Bool-cases (is_zero r)) [
        | inl e ↦ absurd (ne (zero_iff.0 e))
        | inr e ↦ rw (goes, find_task) (rw e)
      ]

  hit :
      (n i : ℕ)
      → i < d.task_num
      → names i ≡ s
      → find_task d (suc n) i taskname mem
        ≡ some (task_mem_base + i * 2 ^ 16, load_task d.sd_read d.task_num i (d.info i) mem)
  unfolding find_task
  hit n i lt e = let (r, goes, zero_iff) = compared i lt in rw (goes, find_task) (rw (zero_iff.1 e))

  -- The names before the one at `k` are others.
  search_lem :
      (n i k : ℕ)
      → i + n ≡ d.task_num
      → i ≤ k
      → k < d.task_num
      → ((j : ℕ) → j < k → names j ≢ s)
      → names k ≡ s
      → find_task d n i taskname mem
        ≡ some (task_mem_base + k * 2 ^ 16, load_task d.sd_read d.task_num k (d.info k) mem)
  search_lem zero i k len le lt others e = absurd (omega arith)
  search_lem (suc n) i k len le lt others e = elim (Bool-cases (i == k)) [
    | inl same ↦
        let at : i ≡ k = (==_iff i k).0 same in
        hit n i (omega arith) (ap names at ∙ e)
        ∙ ap
            (λ k.
              some (task_mem_base + k * 2 ^ 16, load_task d.sd_read d.task_num k (d.info k) mem))
            at
    | inr diff ↦
        miss n i (omega arith) (others i (ground arith))
        ∙ search_lem n (i + 1) k (omega arith) (ground arith) lt others e
  ]

  none_lem :
      (n i : ℕ)
      → i + n ≡ d.task_num
      → ((j : ℕ) → j < d.task_num → names j ≢ s)
      → find_task d n i taskname mem ≡ some (0, mem)
  unfolding find_task
  none_lem zero i len others = refl
  none_lem (suc n) i len others =
      miss n i (omega arith) (others i (omega arith)) ∙ none_lem n (i + 1) (omega arith) others

  -- load_task_img, on names that the comparison reads within its fuel, loads the first task with
  -- the name asked for and returns its entry point; it returns 0 and changes nothing if there is
  -- none.
  pub load_task_img-finds :
      ((k : ℕ)
        → k < d.task_num
        → ((j : ℕ) → j < k → names j ≢ s)
        → names k ≡ s
        → load_task_img d taskname mem
          ≡ some (task_mem_base + k * 2 ^ 16, load_task d.sd_read d.task_num k (d.info k) mem))
      × (((j : ℕ) → j < d.task_num → names j ≢ s) → load_task_img d taskname mem ≡ some (0, mem))
  unfolding load_task_img
  load_task_img-finds = (
    λ k lt others e. search_lem d.task_num 0 k (omega arith) (omega arith) lt others e,
    λ others. none_lem d.task_num 0 (omega arith) others,
  )
