-- ===== src/LinkedList/Replace.antt =====
-- kernel/list/list.c: what `list_replace` and `list_replace_init` do to a ring.
use ucas_oslab_project.Common.{
  ◌≡◌, sym, false, List, [], ◌∷◌, ◌++◌, arith, has, has-append, has_ne, Distinct-apart,
  Distinct-replace, Distinct-not_has, Distinct-append_left, Distinct-append_right,
}
use ucas_oslab_project.LinkedList.{Ptr, Links, list_replace, list_replace_init}
use ucas_oslab_project.LinkedList.Chain.{
  Chain, last_or, head_or, IsRing, IsRing-frame, Chain-ends, has-next, has-prev, Chain-split,
  Chain-join,
}
use ucas_oslab_project.LinkedList.Insert.{Inserted, list_replace-Inserted, before, after}
use ucas_oslab_project.LinkedList.Grow.{init_list_head-IsRing, init_list_head-SameOutside}
use ucas_oslab_project.LinkedList.Remove.{IsDetached}

-- `list_replace` puts a new node in the place of an old one.
pub list_replace-IsRing :
    (l : Links) (h : Ptr) (xs : List Ptr) (old : Ptr) (ys : List Ptr) (new : Ptr)
    → IsRing l h (xs ++ old ∷ ys)
    → has new (h ∷ xs ++ old ∷ ys) ≡ false
    → IsRing (list_replace old new l) h (xs ++ new ∷ ys)
list_replace-IsRing l h xs old ys new r out = record {
  chain =
      Chain-join _ h xs new ys h
        (before i h xs old halves.0 (sym ends.1)
          (
            ground (arith, has-append h xs (old ∷ ys)),
            Distinct-append_left xs (old ∷ ys) r.distinct.1,
          )
          (ground (arith, has-append new xs (old ∷ ys)))
          (ground (
            arith,
            Distinct-apart xs (old ∷ ys) (l.next old) r.distinct.1,
            has-next l old ys h halves.1,
            Distinct-not_has xs old ys r.distinct.1,
            has-append h xs (old ∷ ys),
          )))
        (after i old ys h halves.1 (sym starts.0) (ground (arith, has-append new xs (old ∷ ys)))
          (ground (
            arith,
            Distinct-apart xs (old ∷ ys) (l.prev old) r.distinct.1,
            has-prev l h xs old halves.0,
            Distinct-not_has xs old ys r.distinct.1,
            has-append h xs (old ∷ ys),
          ))
          (Distinct-append_right xs (old ∷ ys) r.distinct.1).1
          (ground (arith, has-append h xs (old ∷ ys))));
  distinct = (
    ground (arith, has-append h xs (new ∷ ys), has-append h xs (old ∷ ys)),
    Distinct-replace xs old ys new r.distinct.1 (ground arith),
  );
}
  where
    halves : Chain l h xs old × Chain l old ys h
    halves = Chain-split l h xs old ys h r.chain

    ends : (l.next h ≡ head_or xs old) × (l.prev old ≡ last_or h xs)
    ends = Chain-ends l h xs old halves.0

    starts : (l.next old ≡ head_or ys h) × (l.prev h ≡ last_or old ys)
    starts = Chain-ends l old ys h halves.1

    i : Inserted l (list_replace old new l) (l.prev old) new (l.next old)
    i =
        list_replace-Inserted l old new
          (has_ne new (l.next old) (h ∷ ys) (has-next l old ys h halves.1)
            (ground (arith, has-append new xs (old ∷ ys))))
          (has_ne new (l.prev old) (h ∷ xs) (has-prev l h xs old halves.0)
            (ground (arith, has-append new xs (old ∷ ys))))

-- list_replace_init puts a node that is not on the ring in the place of one that is, and leaves
-- the old one linked to itself.
pub list_replace_init-IsRing :
    (l : Links) (h : Ptr) (xs : List Ptr) (old : Ptr) (ys : List Ptr) (new : Ptr)
    → IsRing l h (xs ++ old ∷ ys)
    → has new (h ∷ xs ++ old ∷ ys) ≡ false
    → IsRing (list_replace_init old new l) h (xs ++ new ∷ ys)
      × IsDetached (list_replace_init old new l) old
unfolding list_replace_init
list_replace_init-IsRing l h xs old ys new r out = (
  IsRing-frame (old ∷ []) (init_list_head-SameOutside old (list_replace old new l))
      (λ q i. ground (
        arith,
        has_ne old q (h ∷ xs ++ new ∷ ys),
        Distinct-not_has xs old ys r.distinct.1,
        r.distinct.0,
        has-append old xs (new ∷ ys),
        has-append h xs (old ∷ ys),
        has-append new xs (old ∷ ys),
      ))
      (list_replace-IsRing l h xs old ys new r out),
  (init_list_head-IsRing old (list_replace old new l)).chain,
)
