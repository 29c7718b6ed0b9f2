-- ===== src/LinkedList/Move.antt =====
-- kernel/list/list.c: `list_move` and `list_move_tail`, from one list to another, within a list,
-- and of a node that is on no list.
use ucas_oslab_project.Common.{
  ◌≡◌, refl, false, List, [], ◌∷◌, ◌++◌, arith, has, has_ne, has-append, Disjoint,
}
use ucas_oslab_project.LinkedList.{Ptr, Links, list_del, list_move, list_move_tail}
use ucas_oslab_project.LinkedList.Chain.{IsRing, SameOutside, IsRing-frame, SameOutside-trans}
use ucas_oslab_project.LinkedList.Grow.{list_add-IsRing, list_add_tail-IsRing}
use ucas_oslab_project.LinkedList.Remove.{IsDetached, list_del-IsDetached, list_del-IsRing, removed}

-- A node that is on no list goes to the end of one.
pub list_move_tail-IsDetached :
    (l : Links) (e h : Ptr) (xs : List Ptr)
    → IsDetached l e
    → IsRing l h xs
    → has e (h ∷ xs) ≡ false
    → IsRing (list_move_tail e h l) h (xs ++ e ∷ [])
      × SameOutside (e ∷ h ∷ xs) l (list_move_tail e h l)
unfolding list_move_tail
list_move_tail-IsDetached l e h xs d r out =
    let same : SameOutside [] l (list_del e l) = λ q _. list_del-IsDetached l e d q in
    let (ring, rest) = list_add_tail-IsRing e (IsRing-frame [] same (λ q i. refl) r) out in
    (ring, SameOutside-trans (e ∷ h ∷ xs) (λ q _. same q refl) rest)

-- The nodes that a move from the list of `h` to the list of `g` may write to.
abbrev pub both : Ptr → List Ptr → Ptr → List Ptr → Ptr → List Ptr → List Ptr
both h xs e ys g zs = (h ∷ xs ++ e ∷ ys) ++ g ∷ zs

module _ {l : Links} {h : Ptr} (xs : List Ptr) (e : Ptr) (ys : List Ptr)
    (r : IsRing l h (xs ++ e ∷ ys)) where
  module _ {g : Ptr} (zs : List Ptr) (s : IsRing l g zs)
      (apart : Disjoint (g ∷ zs) (h ∷ xs ++ e ∷ ys)) where
    deleted : IsRing (list_del e l) g zs
    deleted = IsRing-frame (h ∷ xs ++ e ∷ ys) (list_del-IsRing xs e ys r).1 apart s

    outside : has e (g ∷ zs) ≡ false
    outside = ground (arith, apart e, has-append e xs (e ∷ ys))

    left_apart : Disjoint (h ∷ xs ++ ys) (e ∷ g ∷ zs)
    left_apart q i = ground (
      arith,
      removed xs e ys r,
      has_ne e q (h ∷ xs ++ ys),
      apart q,
      has-append q xs ys,
      has-append q xs (e ∷ ys),
    )

    within :
        (q : Ptr)
        → has q (both h xs e ys g zs) ≡ false
        → (has q (h ∷ xs ++ e ∷ ys) ≡ false) × (has q (e ∷ g ∷ zs) ≡ false)
    within q out =
        ground (arith, has-append q (h ∷ xs ++ e ∷ ys) (g ∷ zs), has-append q xs (e ∷ ys))

    -- What deleting the node and then linking it in at either end amounts to.
    relink :
        {m : Links} {ws : List Ptr}
        → IsRing m g ws × SameOutside (e ∷ g ∷ zs) (list_del e l) m
        → IsRing m h (xs ++ ys) × IsRing m g ws × SameOutside (both h xs e ys g zs) l m
    relink (ring, rest) = (
      IsRing-frame (e ∷ g ∷ zs) rest left_apart (list_del-IsRing xs e ys r).0,
      ring,
      SameOutside-trans (both h xs e ys g zs)
          (λ q out. (list_del-IsRing xs e ys r).1 q (within q out).0)
          (λ q out. rest q (within q out).1),
    )

    -- list_move takes a node out of its ring to the front of another, disjoint ring, and writes to
    -- no other node than those of the two rings.
    pub list_move-IsRing :
        IsRing (list_move e g l) h (xs ++ ys)
        × IsRing (list_move e g l) g (e ∷ zs)
        × SameOutside (both h xs e ys g zs) l (list_move e g l)
    unfolding list_move
    list_move-IsRing = relink (list_add-IsRing e deleted outside)

    -- list_move_tail takes a node out of its ring to the end of another, disjoint ring, and writes
    -- to no other node than those of the two rings.
    pub list_move_tail-IsRing :
        IsRing (list_move_tail e g l) h (xs ++ ys)
        × IsRing (list_move_tail e g l) g (zs ++ e ∷ [])
        × SameOutside (both h xs e ys g zs) l (list_move_tail e g l)
    unfolding list_move_tail
    list_move_tail-IsRing = relink (list_add_tail-IsRing e deleted outside)

  -- Within one list `list_move_tail` takes a node to the end.
  pub list_move_tail_self : IsRing (list_move_tail e h l) h ((xs ++ ys) ++ e ∷ [])
  unfolding list_move_tail
  list_move_tail_self = (list_add_tail-IsRing e (list_del-IsRing xs e ys r).0 (removed xs e ys r)).0
