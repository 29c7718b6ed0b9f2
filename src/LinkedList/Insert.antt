-- ===== src/LinkedList/Insert.antt =====
-- kernel/list/list.c: a node linked in between two neighbours, which `list_add`, `list_add_tail`
-- and `list_replace` have in common.
use ucas_oslab_project.Common.{◌≡◌, false, List, [], ◌∷◌, arith, ◌==◌, true, has, has_ne, Distinct}
use ucas_oslab_project.LinkedList.{Ptr, Links, list_add, list_add_tail, list_replace}
use ucas_oslab_project.LinkedList.Chain.{
  Chain, SameOutside, Chain-frame, last_or, head_or, has-last_or,
}

-- `m` is `l` with `new` between `p` and `n`.
pub record Inserted (l m : Links) (p new n : Ptr) : Type 0 where
  pub next_p : m.next p ≡ new
  pub prev_n : m.prev n ≡ new
  pub next_new : m.next new ≡ n
  pub prev_new : m.prev new ≡ p
  pub next_same : (q : Ptr) → (q == p) ≡ false → (q == new) ≡ false → m.next q ≡ l.next q
  pub prev_same : (q : Ptr) → (q == n) ≡ false → (q == new) ≡ false → m.prev q ≡ l.prev q

pub list_add-Inserted :
    (l : Links) (new h : Ptr)
    → (new == h) ≡ false
    → (new == l.next h) ≡ false
    → Inserted l (list_add new h l) h new (l.next h)
unfolding list_add
list_add-Inserted l new h ne ne' = record {
  next_p = ground arith;
  prev_n = ground arith;
  next_new = ground arith;
  prev_new = ground arith;
  next_same = λ q u v. ground arith;
  prev_same = λ q u v. ground arith;
}

pub list_add_tail-Inserted :
    (l : Links) (new h : Ptr)
    → (new == h) ≡ false
    → (new == l.prev h) ≡ false
    → Inserted l (list_add_tail new h l) (l.prev h) new h
unfolding list_add_tail
list_add_tail-Inserted l new h ne ne' = record {
  next_p = ground arith;
  prev_n = ground arith;
  next_new = ground arith;
  prev_new = ground arith;
  next_same = λ q u v. ground arith;
  prev_same = λ q u v. ground arith;
}

pub list_replace-Inserted :
    (l : Links) (old new : Ptr)
    → (new == l.next old) ≡ false
    → (new == l.prev old) ≡ false
    → Inserted l (list_replace old new l) (l.prev old) new (l.next old)
unfolding list_replace
list_replace-Inserted l old new ne ne' = record {
  next_p = ground arith;
  prev_n = ground arith;
  next_new = ground arith;
  prev_new = ground arith;
  next_same = λ q u v. ground arith;
  prev_same = λ q u v. ground arith;
}

module _ {l m : Links} {p new n : Ptr} (i : Inserted l m p new n) where
  open i use {next_p, prev_n, next_new, prev_new, next_same, prev_same}

  -- A chain whose last link leaves `p` is followed from there by the chain of `new`.
  pub before :
      (a : Ptr) (xs : List Ptr) (e : Ptr)
      → Chain l a xs e
      → last_or a xs ≡ p
      → Distinct (a ∷ xs)
      → has new (a ∷ xs) ≡ false
      → has n xs ≡ false
      → Chain m a xs new
  before a [] e c at d out apart = ground arith
  before a (x ∷ xs) e c at d out apart = (
    ground (arith, has-last_or x xs, next_same a),
    ground (arith, prev_same x),
    before x xs e c.2 at d.1 (ground arith) (ground arith),
  )

  pub after :
      (e : Ptr) (ys : List Ptr) (b : Ptr)
      → Chain l e ys b
      → head_or ys b ≡ n
      → has new (b ∷ ys) ≡ false
      → has p ys ≡ false
      → Distinct ys
      → has b ys ≡ false
      → Chain m new ys b
  after e [] b c at out apart d end = ground arith
  after e (y ∷ ys) b c at out apart d end = (
    ground arith,
    ground arith,
    Chain-frame l m y ys b (λ q k. ground (arith, next_same q)) (λ q k. ground (arith, prev_same q))
        c.2,
  )

  pub Inserted-SameOutside :
      (ws : List Ptr) → has p ws ≡ true → has n ws ≡ true → SameOutside (new ∷ ws) l m
  Inserted-SameOutside ws hp hn q out =
      ground (arith, next_same q, prev_same q, has_ne q p ws hp, has_ne q n ws hn)
