-- ===== src/LinkedList/Remove.antt =====
-- kernel/list/list.c: what `list_del` and `list_del_init` do to a ring.
use ucas_oslab_project.Common.{
  ◌≡◌, sym, true, false, List, [], ◌∷◌, ◌++◌, arith, ◌==◌, has, has_ne, has-append, Distinct,
  Distinct-not_has, Distinct-drop,
}
use ucas_oslab_project.LinkedList.{Ptr, Links, list_del, init_list_head, list_del_init}
use ucas_oslab_project.LinkedList.Chain.{
  Chain, IsRing, SameOutside, Chain-frame, Chain-ends, Chain-split, last_or, head_or, has-last_or,
  has-head_or, IsRing-frame, has-next, has-prev,
}
use ucas_oslab_project.LinkedList.Grow.{init_list_head-IsRing, init_list_head-SameOutside}

-- `m` is `l` with `p` and `n` joined.
pub record Joined (l m : Links) (p n : Ptr) : Type 0 where
  pub next_p : m.next p ≡ n
  pub prev_n : m.prev n ≡ p
  pub next_same : (q : Ptr) → (q == p) ≡ false → m.next q ≡ l.next q
  pub prev_same : (q : Ptr) → (q == n) ≡ false → m.prev q ≡ l.prev q

pub list_del-Joined : (l : Links) (e : Ptr) → Joined l (list_del e l) (l.prev e) (l.next e)
unfolding list_del
list_del-Joined l e = record {
  next_p = ground arith;
  prev_n = ground arith;
  next_same = λ q u. ground arith;
  prev_same = λ q u. ground arith;
}

module _ {l m : Links} {p n : Ptr} (j : Joined l m p n) where
  open j use {next_p, prev_n, next_same, prev_same}

  -- The node between the two halves is left out.
  bridge :
      (a : Ptr) (xs : List Ptr) (e : Ptr) (ys : List Ptr) (b : Ptr)
      → Chain l a xs e
      → Chain l e ys b
      → last_or a xs ≡ p
      → head_or ys b ≡ n
      → Distinct (a ∷ xs ++ ys)
      → has b (xs ++ ys) ≡ false
      → Chain m a (xs ++ ys) b
  bridge a [] e [] b c k at to d out = ground arith
  bridge a [] e (y ∷ ys) b c k at to d out = (
    ground arith,
    ground arith,
    Chain-frame l m y ys b (λ q i. ground (arith, next_same q)) (λ q i. ground (arith, prev_same q))
        k.2,
  )
  bridge a (x ∷ xs) e ys b c k at to d out = (
    ground (arith, next_same a, has-last_or x xs, has-append a xs ys, has_ne a p (x ∷ xs)),
    ground (arith, prev_same x, has-head_or ys b, has-append x xs ys, has_ne x n (b ∷ ys)),
    bridge x xs e ys b c.2 k at to d.1 (ground arith),
  )

-- A node that is on no list: both of its fields lead to itself.
abbrev pub IsDetached : Links → Ptr → Type 0
IsDetached l e = (l.next e ≡ e) × (l.prev e ≡ e)

-- Deleting a node that is on no list writes nothing new.
pub list_del-IsDetached :
    (l : Links) (e : Ptr)
    → IsDetached l e
    → (q : Ptr) → ((list_del e l).next q ≡ l.next q) × ((list_del e l).prev q ≡ l.prev q)
unfolding list_del
list_del-IsDetached l e d q = ground arith

module _ {l : Links} {h : Ptr} (xs : List Ptr) (e : Ptr) (ys : List Ptr)
    (r : IsRing l h (xs ++ e ∷ ys)) where
  halves : Chain l h xs e × Chain l e ys h
  halves = Chain-split l h xs e ys h r.chain

  distinct : Distinct (h ∷ xs ++ ys)
  distinct = Distinct-drop (h ∷ xs) e ys r.distinct

  pub next-in : has (l.next e) (h ∷ xs ++ e ∷ ys) ≡ true
  next-in = ground (arith, has-next l e ys h halves.1, has-append (l.next e) xs (e ∷ ys))

  pub prev-in : has (l.prev e) (h ∷ xs ++ e ∷ ys) ≡ true
  prev-in = ground (arith, has-prev l h xs e halves.0, has-append (l.prev e) xs (e ∷ ys))

  -- `list_del` takes the node out of its list, and writes to no node but those of the list.
  pub list_del-IsRing :
      IsRing (list_del e l) h (xs ++ ys) × SameOutside (h ∷ xs ++ e ∷ ys) l (list_del e l)
  list_del-IsRing = (
    record {
      chain =
          bridge j h xs e ys h halves.0 halves.1 (sym (Chain-ends l h xs e halves.0).1)
            (sym (Chain-ends l e ys h halves.1).0) distinct distinct.0;
      distinct = distinct;
    },
    λ q out. (
      j.next_same q (has_ne q (l.prev e) (h ∷ xs ++ e ∷ ys) prev-in out),
      j.prev_same q (has_ne q (l.next e) (h ∷ xs ++ e ∷ ys) next-in out),
    ),
  )
    where
      j : Joined l (list_del e l) (l.prev e) (l.next e)
      j = list_del-Joined l e

  -- The node itself is off the list that is left.
  pub removed : has e (h ∷ xs ++ ys) ≡ false
  removed =
      ground
        (arith, Distinct-not_has xs e ys r.distinct.1, has-append e xs ys, has-append h xs (e ∷ ys))

  -- list_del_init takes a node out of its ring, leaves it linked to itself, and writes to no node
  -- outside the ring.
  pub list_del_init-IsRing :
      IsRing (list_del_init e l) h (xs ++ ys)
      × IsDetached (list_del_init e l) e
      × SameOutside (h ∷ xs ++ e ∷ ys) l (list_del_init e l)
  unfolding list_del_init
  list_del_init-IsRing = (
    IsRing-frame (e ∷ []) reset (λ q i. ground (arith, removed, has_ne e q (h ∷ xs ++ ys) i))
        list_del-IsRing.0,
    (init_list_head-IsRing e (list_del e l)).chain,
    λ q out. ground (arith, reset q, list_del-IsRing.1 q, has-append q xs (e ∷ ys)),
  )
    where
      reset : SameOutside (e ∷ []) (list_del e l) (init_list_head e (list_del e l))
      reset = init_list_head-SameOutside e (list_del e l)
