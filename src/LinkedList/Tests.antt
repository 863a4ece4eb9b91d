-- ===== src/LinkedList/Tests.antt =====
-- A ring that is built from an empty heap.
use blueman_artifact.Prelude.{ℕ, ◌≡◌, ◌↔◌, refl, arith, List, [], ◌∷◌, true}
use blueman_artifact.LinkedList.{
  Links, init_list_head, list_add, list_add_tail, list_del, list_empty,
}
use blueman_artifact.LinkedList.Ring.{IsRing}
use blueman_artifact.LinkedList.Order.{
  init_list_head-IsRing, list_add-IsRing, list_add_tail-IsRing, list_del-IsRing, list_empty-IsRing,
}

abbrev no_links : Links
no_links = record { next = λ x. 0; prev = λ x. 0 }

-- The head 0, then 5, and then 8.
abbrev two_nodes : Links
two_nodes = list_add_tail 8 0 (list_add 5 0 (init_list_head 0 no_links))

two_nodes-IsRing : IsRing two_nodes 0 (5 ∷ 8 ∷ [])
two_nodes-IsRing =
    list_add_tail-IsRing (list_add 5 0 (init_list_head 0 no_links)) 8 0 (5 ∷ [])
      (list_add-IsRing (init_list_head 0 no_links) 5 0 [] (init_list_head-IsRing 0 no_links)
        ((λ e. absurd (omega arith)), tt))
      ((λ e. absurd (omega arith)), ((λ e. absurd (omega arith)), tt))

two_nodes_test : two_nodes.next 5 ≡ 8
unfolding list_add_tail list_add init_list_head
two_nodes_test = refl

list_del_example : IsRing (list_del 5 two_nodes) 0 (8 ∷ [])
list_del_example = list_del-IsRing two_nodes 5 0 [] (8 ∷ []) two_nodes-IsRing

list_empty_example : (list_empty 0 two_nodes ≡ true) ↔ (◌≡◌ {A = List ℕ} (5 ∷ 8 ∷ []) [])
list_empty_example = list_empty-IsRing two_nodes 0 (5 ∷ 8 ∷ []) two_nodes-IsRing
