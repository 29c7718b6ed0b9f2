-- ===== src/LinkedList/Chain.antt =====
-- The rings that the functions of kernel/list/list.c work on, and what a write leaves alone.
use mathlib.Core.Path.{subst}
use ucas_oslab_project.Common.{
  ◌≡◌, sym, true, false, List, [], ◌∷◌, ◌++◌, arith, has, Distinct, Disjoint,
}
use ucas_oslab_project.LinkedList.{Ptr, Links}

-- From `a` the `next` pointers lead through `xs` to `b`, and the `prev` pointers lead back.
abbrev pub Chain : Links → Ptr → List Ptr → Ptr → Type 0
Chain l a [] b = (l.next a ≡ b) × (l.prev b ≡ a)
Chain l a (x ∷ xs) b = (l.next a ≡ x) × (l.prev x ≡ a) × Chain l x xs b

-- The list of head `h` holds the nodes `xs`, in order.
pub record IsRing (l : Links) (h : Ptr) (xs : List Ptr) : Type 0 where
  pub chain : Chain l h xs h
  pub distinct : Distinct (h ∷ xs)

-- `m` differs from `l` at most at the nodes `ws`.
abbrev pub SameOutside : List Ptr → Links → Links → Type 0
SameOutside ws l m = (p : Ptr) → has p ws ≡ false → (m.next p ≡ l.next p) × (m.prev p ≡ l.prev p)

-- A chain survives any change that spares the fields that it reads.
pub Chain-frame :
    (l m : Links) (a : Ptr) (xs : List Ptr) (b : Ptr)
    → ((p : Ptr) → has p (a ∷ xs) ≡ true → m.next p ≡ l.next p)
    → ((p : Ptr) → has p (b ∷ xs) ≡ true → m.prev p ≡ l.prev p)
    → Chain l a xs b
    → Chain m a xs b
Chain-frame l m a [] b nexts prevs c = ground (arith, nexts a, prevs b)
Chain-frame l m a (x ∷ xs) b nexts prevs c = (
  ground (arith, nexts a),
  ground (arith, prevs x),
  Chain-frame l m x xs b (λ p i. nexts p (ground arith)) (λ p i. prevs p (ground arith)) c.2,
)

pub IsRing-frame :
    {l m : Links} {h : Ptr} {xs : List Ptr} (ws : List Ptr)
    → SameOutside ws l m
    → Disjoint (h ∷ xs) ws
    → IsRing l h xs
    → IsRing m h xs
IsRing-frame {l} {m} {h} {xs} ws same apart r = record {
  chain =
      Chain-frame l m h xs h (λ p i. (same p (apart p i)).0) (λ p i. (same p (apart p i)).1)
        r.chain;
  distinct = r.distinct;
}

-- The neighbours of a gap: the last of `a ∷ xs`, and the first of `xs ++ b ∷ []`.
abbrev pub last_or : Ptr → List Ptr → Ptr
last_or a [] = a
last_or a (x ∷ xs) = last_or x xs

abbrev pub head_or : List Ptr → Ptr → Ptr
head_or [] b = b
head_or (x ∷ xs) b = x

pub has-last_or : (a : Ptr) (xs : List Ptr) → has (last_or a xs) (a ∷ xs) ≡ true
has-last_or a [] = ground arith
has-last_or a (x ∷ xs) = ground (arith, has-last_or x xs)

pub has-head_or : (xs : List Ptr) (b : Ptr) → has (head_or xs b) (b ∷ xs) ≡ true
has-head_or [] b = ground arith
has-head_or (x ∷ xs) b = ground arith

pub Chain-ends :
    (l : Links) (a : Ptr) (xs : List Ptr) (b : Ptr)
    → Chain l a xs b
    → (l.next a ≡ head_or xs b) × (l.prev b ≡ last_or a xs)
Chain-ends l a [] b c = c
Chain-ends l a (x ∷ xs) b c = (c.0, (Chain-ends l x xs b c.2).1)

pub Chain-split :
    (l : Links) (a : Ptr) (xs : List Ptr) (e : Ptr) (ys : List Ptr) (b : Ptr)
    → Chain l a (xs ++ e ∷ ys) b
    → Chain l a xs e × Chain l e ys b
Chain-split l a [] e ys b c = ((c.0, c.1), c.2)
Chain-split l a (x ∷ xs) e ys b c =
    let (left, right) = Chain-split l x xs e ys b c.2 in ((c.0, c.1, left), right)

pub Chain-join :
    (l : Links) (a : Ptr) (xs : List Ptr) (e : Ptr) (ys : List Ptr) (b : Ptr)
    → Chain l a xs e
    → Chain l e ys b
    → Chain l a (xs ++ e ∷ ys) b
Chain-join l a [] e ys b c k = (c.0, c.1, k)
Chain-join l a (x ∷ xs) e ys b c k = (c.0, c.1, Chain-join l x xs e ys b c.2 k)

-- The neighbours of a chain's ends are its own nodes.
pub has-next :
    (l : Links) (a : Ptr) (xs : List Ptr) (b : Ptr)
    → Chain l a xs b
    → has (l.next a) (b ∷ xs) ≡ true
has-next l a xs b c =
    subst (λ q. has q (b ∷ xs) ≡ true) (sym (Chain-ends l a xs b c).0) (has-head_or xs b)

pub has-prev :
    (l : Links) (a : Ptr) (xs : List Ptr) (b : Ptr)
    → Chain l a xs b
    → has (l.prev b) (a ∷ xs) ≡ true
has-prev l a xs b c =
    subst (λ q. has q (a ∷ xs) ≡ true) (sym (Chain-ends l a xs b c).1) (has-last_or a xs)

pub SameOutside-trans :
    (ws : List Ptr) {l m k : Links} → SameOutside ws l m → SameOutside ws m k → SameOutside ws l k
SameOutside-trans ws first second q out = ground (arith, first q out, second q out)

pub SameOutside-mono :
    (vs ws : List Ptr) {l m : Links}
    → ((q : Ptr) → has q ws ≡ false → has q vs ≡ false)
    → SameOutside vs l m
    → SameOutside ws l m
SameOutside-mono vs ws sub same q out = same q (sub q out)
