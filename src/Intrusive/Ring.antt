-- ===== src/Intrusive/Ring.antt =====
-- IntrusiveList of include/crab/intrusive_list.hpp. A node is a number that stands for its address,
-- 0 for a null pointer; the links of all nodes, in whatever lists, are two functions.
pub mod Contents
pub mod Api
use crablib.Base.{ℕ, Bool, true, false, not, ◌==◌, if◌then◌else◌}

pub record Links : Type 0 where
  pub next : ℕ → ℕ
  pub prev : ℕ → ℕ

unfoldable pub store : (ℕ → ℕ) → ℕ → ℕ → ℕ → ℕ
store f a v n = if n == a then v else f n

unfoldable pub in_list : Links → ℕ → Bool
in_list s node = not (s.prev node == 0)

-- One assignment after another, each with the links it finds.
unfoldable pub unlink : Links → ℕ → Links
unfolding in_list
unlink s node =
    if not (in_list s node)
    then s
    else (let prev = store s.prev (s.next node) (s.prev node) in
        let next = store s.next (prev node) (s.next node) in
        record { next = store next node 0; prev = store prev node 0 })

-- The constructor of a list, with its own node.
unfoldable pub construct : Links → ℕ → Links
construct s content = record {
  next = store s.next content content;
  prev = store s.prev content content;
}

-- An iterator is the node in front of the one it stands for.
unfoldable pub begin : Links → ℕ → ℕ
begin s content = content

unfoldable pub end : Links → ℕ → ℕ
end s content = s.prev content

unfoldable pub empty : Links → ℕ → Bool
empty s content = content == s.prev content

unfoldable pub front : Links → ℕ → ℕ
front s content = s.next (begin s content)

unfoldable pub back : Links → ℕ → ℕ
back s content = s.next (s.prev (end s content))

unfoldable pub insert : Links → ℕ → ℕ → Links
insert s pos other =
    if in_list s other
    then s
    else (let next = store s.next other (s.next pos) in
        let prev = store s.prev other pos in
        record { next = store next pos other; prev = store prev (next pos) other })

unfoldable pub push_back : Links → ℕ → ℕ → Links
push_back s content node = insert s (end s content) node

unfoldable pub push_front : Links → ℕ → ℕ → Links
push_front s content node = insert s (begin s content) node
