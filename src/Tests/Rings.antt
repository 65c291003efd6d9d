-- ===== src/Tests/Rings.antt =====
-- Tests and instances for the intrusive list.
use crablib.Base.{◌≡◌, refl, false, [], ◌∷◌, arith}
use crablib.Intrusive.Ring.{
  Links, in_list, unlink, construct, front, back, push_back, push_front, store, insert, end,
}
use crablib.Intrusive.Ring.Contents.{IsLinked, without}
use crablib.Intrusive.Ring.Api.{Holds, construct-Holds, push-Holds, unlink-Holds}

abbrev no_links : Links
no_links = record { next = λ n. 0; prev = λ n. 0 }

no_links-IsLinked : IsLinked no_links
no_links-IsLinked = record {
  forth = λ n e. elim (e refl) [ ];
  hither = λ n e. elim (e refl) [ ];
  alone = λ n e. refl;
  null = refl;
}

abbrev new_list : Links
new_list = construct no_links 1

new_list-Holds : Holds new_list 1 []
new_list-Holds = construct-Holds no_links 1 no_links-IsLinked refl (omega arith)

two_unlinked : new_list.prev 2 ≡ 0
unfolding construct store
two_unlinked = refl

push-Holds_example :
    (Holds (push_back new_list 1 2) 1 (2 ∷ []) × (back (push_back new_list 1 2) 1 ≡ 2))
    × (Holds (push_front new_list 1 2) 1 (2 ∷ []) × (front (push_front new_list 1 2) 1 ≡ 2))
push-Holds_example = push-Holds new_list 1 [] 2 new_list-Holds (omega arith) two_unlinked

one_node-Holds : Holds (push_back new_list 1 2) 1 (2 ∷ [])
one_node-Holds = (push-Holds new_list 1 [] 2 new_list-Holds (omega arith) two_unlinked).0.0

three_unlinked : (push_back new_list 1 2).prev 3 ≡ 0
unfolding construct store push_back insert in_list end
three_unlinked = refl

two_nodes-Holds : Holds (push_front (push_back new_list 1 2) 1 3) 1 (3 ∷ (2 ∷ []))
two_nodes-Holds =
    (push-Holds (push_back new_list 1 2) 1 (2 ∷ []) 3 one_node-Holds (omega arith)
      three_unlinked).1.0

unlink-Holds_example :
    Holds (unlink (push_front (push_back new_list 1 2) 1 3) 2) 1 (without 2 (3 ∷ (2 ∷ [])))
    × (in_list (unlink (push_front (push_back new_list 1 2) 1 3) 2) 2 ≡ false)
unlink-Holds_example =
    unlink-Holds (push_front (push_back new_list 1 2) 1 3) 1 (3 ∷ (2 ∷ [])) 2 two_nodes-Holds
      (omega arith)
