-- ===== src/LinkedList/Grow.antt =====
-- kernel/list/list.c: what `init_list_head`, `list_add` and `list_add_tail` do to a ring.
use ucas_oslab_project.Common.{
  ◌≡◌, refl, sym, false, List, [], ◌∷◌, ◌++◌, arith, has, Distinct-snoc,
}
use ucas_oslab_project.LinkedList.{Ptr, Links, init_list_head, list_add, list_add_tail}
use ucas_oslab_project.LinkedList.Chain.{
  IsRing, SameOutside, Chain-ends, Chain-join, has-last_or, has-head_or,
}
use ucas_oslab_project.LinkedList.Insert.{
  Inserted, list_add-Inserted, list_add_tail-Inserted, before, after, Inserted-SameOutside,
}

pub init_list_head-IsRing : (p : Ptr) (l : Links) → IsRing (init_list_head p l) p []
unfolding init_list_head
init_list_head-IsRing p l = record { chain = (ground arith, ground arith); distinct = (refl, tt) }

pub init_list_head-SameOutside : (p : Ptr) (l : Links) → SameOutside (p ∷ []) l (init_list_head p l)
unfolding init_list_head
init_list_head-SameOutside p l q out = ground arith

module _ {l : Links} {h : Ptr} {xs : List Ptr} (new : Ptr) (r : IsRing l h xs) where
  add_Inserted : has new (h ∷ xs) ≡ false → Inserted l (list_add new h l) h new (l.next h)
  add_Inserted out =
      list_add-Inserted l new h (ground arith)
        (ground (arith, Chain-ends l h xs h r.chain, has-head_or xs h))

  add_tail_Inserted : has new (h ∷ xs) ≡ false → Inserted l (list_add_tail new h l) (l.prev h) new h
  add_tail_Inserted out =
      list_add_tail-Inserted l new h (ground arith)
        (ground (arith, Chain-ends l h xs h r.chain, has-last_or h xs))

  -- list_add makes a node that is not on the ring its first, and writes to no node outside the
  -- ring but the new one.
  pub list_add-IsRing :
      has new (h ∷ xs) ≡ false
      → IsRing (list_add new h l) h (new ∷ xs) × SameOutside (new ∷ h ∷ xs) l (list_add new h l)
  list_add-IsRing out = (
    record {
      chain = (
        i.next_p,
        i.prev_new,
        after i h xs h r.chain (sym (Chain-ends l h xs h r.chain).0) out r.distinct.0 r.distinct.1
            r.distinct.0,
      );
      distinct = (ground (arith, r.distinct), (ground arith, r.distinct.1));
    },
    Inserted-SameOutside i (h ∷ xs) (ground arith)
        (ground (arith, Chain-ends l h xs h r.chain, has-head_or xs h)),
  )
    where
      i : Inserted l (list_add new h l) h new (l.next h)
      i = add_Inserted out

  -- list_add_tail makes a node that is not on the ring its last, and writes to no node outside the
  -- ring but the new one.
  pub list_add_tail-IsRing :
      has new (h ∷ xs) ≡ false
      → IsRing (list_add_tail new h l) h (xs ++ new ∷ [])
        × SameOutside (new ∷ h ∷ xs) l (list_add_tail new h l)
  list_add_tail-IsRing out = (
    record {
      chain =
          Chain-join _ h xs new [] h
            (before i h xs h r.chain (sym (Chain-ends l h xs h r.chain).1) r.distinct out
              r.distinct.0)
            (i.next_new, i.prev_n);
      distinct = Distinct-snoc (h ∷ xs) new r.distinct out;
    },
    Inserted-SameOutside i (h ∷ xs) (ground (arith, Chain-ends l h xs h r.chain, has-last_or h xs))
        (ground arith),
  )
    where
      i : Inserted l (list_add_tail new h l) (l.prev h) new h
      i = add_tail_Inserted out
