-- ===== src/Locking/Keys.antt =====
-- kernel/locking/lock.c: `do_mutex_lock_init` finds or claims the lock of a key.
use mathlib.Core.Path.{subst}
use ucas_oslab_project.Common.{
  ℕ, zero, suc, ◌+◌, ◌≡◌, refl, sym, ap, ◌∙◌, inl, inr, true, none, some, List, [], ◌∷◌, arith,
  Bool-cases, Option-cases, get_elem?, set, get_elem?-set_self, get_elem?-set_ne, ◌≢◌,
}
use ucas_oslab_project.Common.Int.{ℤ, pos, negsuc}
use ucas_oslab_project.Kernel.{MutexLock, Kernel}
use ucas_oslab_project.Locking.{◌==ℤ◌, no_key, find_key, do_mutex_lock_init, set_lock}

==ℤ-eq : (a b : ℤ) → (a ==ℤ b) ≡ true → a ≡ b
==ℤ-eq a b h = ground arith

eq-==ℤ : (a : ℤ) → (a ==ℤ a) ≡ true
eq-==ℤ a = ground arith

-- The lock at index `d` of the list has the key.
record Keyed (key : ℤ) (ls : List MutexLock) (d : ℕ) : Type 0 where
  lock : MutexLock
  at : get_elem? ls d ≡ some lock
  key_is : lock.key ≡ key

find_key-Keyed :
    (key : ℤ) (i : ℕ) (ls : List MutexLock) {j : ℕ}
    → find_key key i ls ≡ some j
    → (d : ℕ) × (j ≡ i + d) × Keyed key ls d
unfolding find_key
find_key-Keyed key i [] h = cc
find_key-Keyed key i (l ∷ ls) h = elim (Bool-cases (l.key ==ℤ key)) [
  | inl hit ↦ (0, ground arith, record { lock = l; at = refl; key_is = ==ℤ-eq l.key key hit })
  | inr miss ↦
      let (d, e, found) = find_key-Keyed key (suc i) ls (rw (miss) at h) in
      (suc d, omega arith, record { lock = found.lock; at = found.at; key_is = found.key_is })
]

-- A lock whose key is set where no lock had the key is the one that is found.
find_key-set :
    (key : ℤ) (i : ℕ) (ls : List MutexLock) (d : ℕ) {l : MutexLock} (l' : MutexLock)
    → find_key key i ls ≡ none
    → get_elem? ls d ≡ some l
    → l'.key ≡ key
    → find_key key i (set ls d l') ≡ some (i + d)
unfolding find_key
find_key-set key i [] d l' none_yet here e = cc
find_key-set key i (x ∷ xs) zero l' none_yet here e = ground (arith, eq-==ℤ key)
find_key-set key i (x ∷ xs) (suc d) l' none_yet here e = elim (Bool-cases (x.key ==ℤ key)) [
  | inl hit ↦ ground arith
  | inr miss ↦
      rw miss
        (find_key-set key (suc i) xs d l' (rw miss at none_yet) here e ∙ ap some (omega arith))
]

-- The three ways that `do_mutex_lock_init` may end: the key is known, a free lock gets it, or
-- there is no free lock.
data Init (key : ℤ) (k : Kernel) (r : ℤ × Kernel) : Type 0 where
  known : (i : ℕ) → find_key key 0 k.mlocks ≡ some i → r ≡ (pos i, k) → Init key k r
  claimed :
      (i : ℕ) (l : MutexLock)
      → find_key key 0 k.mlocks ≡ none
      → get_elem? k.mlocks i ≡ some l
      → l.key ≡ no_key
      → r ≡ (pos i, set_lock i (record l { key = key }) k)
      → Init key k r
  full :
      find_key key 0 k.mlocks ≡ none
      → find_key no_key 0 k.mlocks ≡ none
      → r ≡ (negsuc 0, k)
      → Init key k r

do_mutex_lock_init-Init : (key : ℤ) (k : Kernel) → Init key k (do_mutex_lock_init key k)
unfolding do_mutex_lock_init
do_mutex_lock_init-Init key k = elim (Option-cases (find_key key 0 k.mlocks)) [
  | inr (i, hit) ↦ known i hit (rw (hit, do_mutex_lock_init))
  | inl miss ↦ elim (Option-cases (find_key no_key 0 k.mlocks)) [
    | inl none_free ↦ full miss none_free (rw (miss, none_free, do_mutex_lock_init))
    | inr (i, free) ↦
        let (d, e, f) = find_key-Keyed no_key 0 k.mlocks free in
        let same : d ≡ i = omega arith in
        let at = ap (get_elem? k.mlocks) (sym same) ∙ f.at in
        claimed i f.lock miss at f.key_is (rw (miss, free, at, do_mutex_lock_init))
  ]
]

Init-Keyed :
    (key : ℤ) (k : Kernel) (r : ℤ × Kernel) (i : ℕ)
    → Init key k r
    → r.0 ≡ pos i
    → Keyed key r.1.mlocks i
Init-Keyed key k r i (known j hit e) at =
    let (d, e', f) = find_key-Keyed key 0 k.mlocks hit in
    let q : pos j ≡ pos i = sym (ap (λ t. t.0) e) ∙ at in
    let same : d ≡ i = ground arith in
    subst (λ t. Keyed key t.1.mlocks i) (sym e) (subst (Keyed key k.mlocks) same f)
Init-Keyed key k r i (claimed j l miss here free e) at =
    let q : pos j ≡ pos i = sym (ap (λ t. t.0) e) ∙ at in
    let same : j ≡ i = ground arith in
    subst (λ t. Keyed key t.1.mlocks i) (sym e)
      (subst (Keyed key (set k.mlocks j (record l { key = key }))) same (record {
        lock = record l { key = key };
        at = get_elem?-set_self k.mlocks j (record l { key = key }) here;
        key_is = refl;
      }))
Init-Keyed key k r i (full miss none_free e) at =
    let q : negsuc 0 ≡ pos i = sym (ap (λ t. t.0) e) ∙ at in cc

-- A lock that has a key other than -1 keeps it, whatever key is asked for next.
Init-keeps :
    (a b : ℤ) (k : Kernel) (r : ℤ × Kernel) (i : ℕ)
    → Init b k r
    → a ≢ no_key
    → Keyed a k.mlocks i
    → Keyed a r.1.mlocks i
Init-keeps a b k r i (known j hit e) ne f = subst (λ t. Keyed a t.1.mlocks i) (sym e) f
Init-keeps a b k r i (claimed j l miss here free e) ne f =
    let other : j ≢ i = λ same. ne (
      let both : some l ≡ some f.lock = sym here ∙ ap (get_elem? k.mlocks) same ∙ f.at in
      let one : l ≡ f.lock = cc in sym f.key_is ∙ sym (ap (λ t. t.key) one) ∙ free) in
    subst (λ t. Keyed a t.1.mlocks i) (sym e)
      (record {
        lock = f.lock;
        at = get_elem?-set_ne k.mlocks j i (record l { key = b }) other ∙ f.at;
        key_is = f.key_is;
      })
Init-keeps a b k r i (full miss none_free e) ne f = subst (λ t. Keyed a t.1.mlocks i) (sym e) f

init-known :
    (key : ℤ) (k : Kernel) (i : ℕ)
    → find_key key 0 k.mlocks ≡ some i
    → do_mutex_lock_init key k ≡ (pos i, k)
unfolding do_mutex_lock_init
init-known key k i hit = rw (hit, do_mutex_lock_init)

repeat :
    (key : ℤ) (k : Kernel) (r : ℤ × Kernel)
    → Init key k r
    → do_mutex_lock_init key k ≡ r
    → do_mutex_lock_init key r.1 ≡ r
repeat key k r (known i hit e) d = ap (λ t. do_mutex_lock_init key t.1) e ∙ d
repeat key k r (claimed i l miss here free e) d =
    ap (λ t. do_mutex_lock_init key t.1) e
    ∙ init-known key (set_lock i (record l { key = key }) k) i (
        find_key-set key 0 k.mlocks i (record l { key = key }) miss here refl
        ∙ ap some (omega arith))
    ∙ sym e
repeat key k r (full miss none_free e) d = ap (λ t. do_mutex_lock_init key t.1) e ∙ d

-- Asking again for a key returns the same lock index, or the same failure, and changes nothing.
pub do_mutex_lock_init-repeat :
    (key : ℤ) (k : Kernel)
    → do_mutex_lock_init key (do_mutex_lock_init key k).1 ≡ do_mutex_lock_init key k
do_mutex_lock_init-repeat key k =
    repeat key k (do_mutex_lock_init key k) (do_mutex_lock_init-Init key k) refl

-- Two keys for which do_mutex_lock_init returns the same lock, one call after the other, are
-- equal, if the first is not -1.
pub do_mutex_lock_init-injective :
    (a b : ℤ) (k : Kernel) (i : ℕ)
    → a ≢ no_key
    → (do_mutex_lock_init a k).0 ≡ pos i
    → (do_mutex_lock_init b (do_mutex_lock_init a k).1).0 ≡ pos i
    → a ≡ b
do_mutex_lock_init-injective a b k i ne first second =
    let k1 = (do_mutex_lock_init a k).1 in
    let mine =
      Init-keeps a b k1 _ i (do_mutex_lock_init-Init b k1) ne
        (Init-Keyed a k _ i (do_mutex_lock_init-Init a k) first) in
    let theirs = Init-Keyed b k1 _ i (do_mutex_lock_init-Init b k1) second in
    let both : some mine.lock ≡ some theirs.lock = sym mine.at ∙ theirs.at in
    let one : mine.lock ≡ theirs.lock = cc in sym mine.key_is ∙ ap (λ t. t.key) one ∙ theirs.key_is
