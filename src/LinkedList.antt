-- ===== src/LinkedList.antt =====
-- The circular doubly linked lists of blueman-main/utils.c and include/utils.h. A node is an
-- address; the heap holds the two fields of every node, and a call is a sequence of assignments.
pub mod Ring
pub mod Order
mod Tests
use blueman_artifact.Prelude.{ℕ, zero, suc, ◌+◌, ◌==◌, if◌then◌else◌, Bool, Option, none, some}

pub record Links : Type 0 where
  pub next : ℕ → ℕ
  pub prev : ℕ → ℕ

abbrev pub update : (ℕ → ℕ) → ℕ → ℕ → ℕ → ℕ
update f a v x = if x == a then v else f x

-- `a->next = v` and `a->prev = v`
abbrev pub set_next : ℕ → ℕ → Links → Links
set_next a v h = record h { next = update h.next a v }

abbrev pub set_prev : ℕ → ℕ → Links → Links
set_prev a v h = record h { prev = update h.prev a v }

unfoldable pub list_add : ℕ → ℕ → Links → Links
list_add node head h =
    let next = h.next head in
    set_next head node (set_prev node head (set_next node next (set_prev next node h)))

unfoldable pub list_add_tail : ℕ → ℕ → Links → Links
list_add_tail node head h =
    let tail = h.prev head in
    set_prev node tail (set_next node head (set_prev head node (set_next tail node h)))

unfoldable pub list_del : ℕ → Links → Links
list_del node h =
    let next = h.next node in let prev = h.prev node in set_next prev next (set_prev next prev h)

unfoldable pub init_list_head : ℕ → Links → Links
init_list_head node h = set_next node node (set_prev node node h)

unfoldable pub list_del_init : ℕ → Links → Links
unfolding list_del init_list_head
list_del_init node h = init_list_head node (list_del node h)

unfoldable pub list_empty : ℕ → Links → Bool
list_empty head h = h.next head == head

-- `list_for_each` with a body that counts, as in `get_queue_length`: at `node`, with `fuel` rounds
-- to spare, from the count `ret`; `none` if the rounds run out.
unfoldable pub count_from : ℕ → ℕ → ℕ → ℕ → Links → Option ℕ
count_from zero node head ret h = none
count_from (suc fuel) node head ret h =
    let rest = count_from fuel (h.next node) head (ret + 1) h in
    if node == head then some ret else rest

unfoldable pub list_length : ℕ → ℕ → Links → Option ℕ
unfolding count_from
list_length fuel head h = count_from fuel (h.next head) head 0 h
