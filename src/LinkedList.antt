-- ===== src/LinkedList.antt =====
-- kernel/list/list.c: circular doubly linked lists over a memory of `next` and `prev` fields.
-- A pointer is the address of a `list_node_t`; the memory is total, as on the bare machine.
pub mod Chain
pub mod Insert
pub mod Grow
pub mod Remove
pub mod Replace
pub mod Move
use ucas_oslab_project.Common.{ℕ, Bool, ◌==◌, if◌then◌else◌}

abbrev pub Ptr : Type 0
Ptr = ℕ

-- The two fields of `list_node_t` at each address.
pub record Links : Type 0 where
  pub next : Ptr → Ptr
  pub prev : Ptr → Ptr

abbrev pub update {ℓ} : {A : Type ℓ} → (ℕ → A) → ℕ → A → ℕ → A
update f p v q = if q == p then v else f q

-- `p->next = v` and `p->prev = v`
abbrev pub set_next : Ptr → Ptr → Links → Links
set_next p v l = record l { next = update l.next p v }

abbrev pub set_prev : Ptr → Ptr → Links → Links
set_prev p v l = record l { prev = update l.prev p v }

unfoldable pub init_list_head : Ptr → Links → Links
init_list_head ptr l = let l1 = set_next ptr ptr l in set_prev ptr ptr l1

unfoldable pub list_add : Ptr → Ptr → Links → Links
list_add new head l =
    let l1 = set_next new (l.next head) l in
    let l2 = set_prev new head l1 in let l3 = set_prev (l2.next head) new l2 in set_next head new l3

unfoldable pub list_add_tail : Ptr → Ptr → Links → Links
list_add_tail new head l =
    let l1 = set_next new head l in
    let l2 = set_prev new (l1.prev head) l1 in
    let l3 = set_next (l2.prev head) new l2 in set_prev head new l3

unfoldable pub list_del : Ptr → Links → Links
list_del entry l =
    let l1 = set_next (l.prev entry) (l.next entry) l in set_prev (l1.next entry) (l1.prev entry) l1

unfoldable pub list_del_init : Ptr → Links → Links
list_del_init entry l = init_list_head entry (list_del entry l)

unfoldable pub list_replace : Ptr → Ptr → Links → Links
list_replace old new l =
    let l1 = set_next new (l.next old) l in
    let l2 = set_prev new (l1.prev old) l1 in
    let l3 = set_prev (l2.next new) new l2 in set_next (l3.prev new) new l3

unfoldable pub list_replace_init : Ptr → Ptr → Links → Links
list_replace_init old new l = init_list_head old (list_replace old new l)

unfoldable pub list_move : Ptr → Ptr → Links → Links
list_move list head l = list_add list head (list_del list l)

unfoldable pub list_move_tail : Ptr → Ptr → Links → Links
list_move_tail list head l = list_add_tail list head (list_del list l)

-- The macros `list_empty` and `list_is_singular`.
unfoldable pub list_empty : Ptr → Links → Bool
list_empty head l = l.next head == head
