-- ===== src/Common/Lists.antt =====
-- Lists measured and indexed by native numbers, and membership as a test.
use Prim.Native.Nat.{ℕ, zero, suc, ◌+◌}
use mathlib.Core.Path.{◌≡◌, refl, ap}
use mathlib.Core.Logic.{◌≢◌}
use mathlib.Core.Bool.{Bool, true, false, ◌||◌}
use mathlib.Core.List.{List, [], ◌∷◌, ◌++◌}
use mathlib.Core.Option.{Option, none, some}
use native.Mathlib.Omega.{arith}
use ucas_oslab_project.Common.Tests.{◌==◌}

module _ {ℓ} {A : Type ℓ} where
  abbrev pub length : List A → ℕ
  length [] = 0
  length (x ∷ xs) = suc (length xs)

  abbrev pub get_elem? : List A → ℕ → Option A
  get_elem? [] i = none
  get_elem? (x ∷ xs) zero = some x
  get_elem? (x ∷ xs) (suc i) = get_elem? xs i

  -- A write out of bounds changes nothing.
  abbrev pub set : List A → ℕ → A → List A
  set [] i v = []
  set (x ∷ xs) zero v = v ∷ xs
  set (x ∷ xs) (suc i) v = x ∷ set xs i v

  pub length-append : (xs ys : List A) → length (xs ++ ys) ≡ length xs + length ys
  length-append [] ys = omega arith
  length-append (x ∷ xs) ys = omega (arith, length-append xs ys)

-- Whether an address stands in a list.
abbrev pub has : ℕ → List ℕ → Bool
has a [] = false
has a (x ∷ xs) = (a == x) || has a xs

abbrev pub Distinct : List ℕ → Type 0
Distinct [] = Unit {0}
Distinct (x ∷ xs) = (has x xs ≡ false) × Distinct xs

abbrev pub Disjoint : List ℕ → List ℕ → Type 0
Disjoint xs ys = (a : ℕ) → has a xs ≡ true → has a ys ≡ false

pub has-append : (a : ℕ) (xs ys : List ℕ) → has a (xs ++ ys) ≡ (has a xs || has a ys)
has-append a [] ys = refl
has-append a (x ∷ xs) ys = ground (arith, has-append a xs ys)

pub Distinct-append_left : (xs ys : List ℕ) → Distinct (xs ++ ys) → Distinct xs
Distinct-append_left [] ys d = tt
Distinct-append_left (x ∷ xs) ys d =
    (ground (arith, has-append x xs ys), Distinct-append_left xs ys d.1)

pub Distinct-append_right : (xs ys : List ℕ) → Distinct (xs ++ ys) → Distinct ys
Distinct-append_right [] ys d = d
Distinct-append_right (x ∷ xs) ys d = Distinct-append_right xs ys d.1

pub Distinct-drop :
    (xs : List ℕ) (e : ℕ) (ys : List ℕ) → Distinct (xs ++ e ∷ ys) → Distinct (xs ++ ys)
Distinct-drop [] e ys d = d.1
Distinct-drop (x ∷ xs) e ys d =
    (ground (arith, has-append x xs (e ∷ ys), has-append x xs ys), Distinct-drop xs e ys d.1)

pub Distinct-not_has :
    (xs : List ℕ) (e : ℕ) (ys : List ℕ)
    → Distinct (xs ++ e ∷ ys)
    → (has e xs ≡ false) × (has e ys ≡ false)
Distinct-not_has [] e ys d = (refl, d.0)
Distinct-not_has (x ∷ xs) e ys d =
    ground (arith, has-append x xs (e ∷ ys), Distinct-not_has xs e ys d.1)

pub Distinct-snoc : (xs : List ℕ) (e : ℕ) → Distinct xs → has e xs ≡ false → Distinct (xs ++ e ∷ [])
Distinct-snoc [] e d out = (refl, tt)
Distinct-snoc (x ∷ xs) e d out =
    (ground (arith, has-append x xs (e ∷ [])), Distinct-snoc xs e d.1 (ground arith))

pub has_ne : (q p : ℕ) (ws : List ℕ) → has p ws ≡ true → has q ws ≡ false → (q == p) ≡ false
has_ne q p [] h out = ground arith
has_ne q p (w ∷ ws) h out = ground (arith, has_ne q p ws)

-- A list without repeats has no element in both of its halves.
pub Distinct-apart :
    (xs ys : List ℕ) (p : ℕ) → Distinct (xs ++ ys) → has p xs ≡ true → has p ys ≡ false
Distinct-apart [] ys p d h = absurd (grind arith)
Distinct-apart (x ∷ xs) ys p d h = ground (arith, has-append x xs ys, Distinct-apart xs ys p d.1)

pub Distinct-replace :
    (xs : List ℕ) (e : ℕ) (ys : List ℕ) (new : ℕ)
    → Distinct (xs ++ e ∷ ys)
    → has new (xs ++ e ∷ ys) ≡ false
    → Distinct (xs ++ new ∷ ys)
Distinct-replace [] e ys new d out = (ground arith, d.1)
Distinct-replace (x ∷ xs) e ys new d out = (
  ground (arith, has-append x xs (e ∷ ys), has-append x xs (new ∷ ys)),
  Distinct-replace xs e ys new d.1 (ground arith),
)

module _ {ℓ} {A : Type ℓ} where
  pub get_elem?-set_self :
      (xs : List A) (i : ℕ) {a : A} (v : A)
      → get_elem? xs i ≡ some a
      → get_elem? (set xs i v) i ≡ some v
  get_elem?-set_self [] i v h = cc
  get_elem?-set_self (x ∷ xs) zero v h = refl
  get_elem?-set_self (x ∷ xs) (suc i) v h = get_elem?-set_self xs i v h

  pub get_elem?-set_ne :
      (xs : List A) (i j : ℕ) (v : A) → i ≢ j → get_elem? (set xs i v) j ≡ get_elem? xs j
  get_elem?-set_ne [] i j v h = refl
  get_elem?-set_ne (x ∷ xs) zero zero v h = absurd (h refl)
  get_elem?-set_ne (x ∷ xs) zero (suc j) v h = refl
  get_elem?-set_ne (x ∷ xs) (suc i) zero v h = refl
  get_elem?-set_ne (x ∷ xs) (suc i) (suc j) v h = get_elem?-set_ne xs i j v (λ e. h (ap suc e))
