-- ===== src/Intrusive/Ring/Api.antt =====
-- What the operations of IntrusiveList of include/crab/intrusive_list.hpp make of a list's nodes.
use crablib.Base.{
  ℕ, ◌≡◌, ◌≢◌, refl, sym, ap, ◌∙◌, true, false, List, [], ◌∷◌, ◌++◌, arith, ◌==◌, Bool-cases, inl,
  inr,
}
use crablib.Intrusive.Ring.{
  Links, store, in_list, unlink, construct, begin, end, empty, front, back, push_back, push_front,
}
use crablib.Intrusive.Ring.Contents.{
  IsLinked, Leads, after_in_list, insert-prev, insert-next, insert-IsLinked, insert-front,
  insert-back, without, unlink-prev, unlink_in-IsLinked, unlink_in-Leads,
}

-- The list whose own node is `content` holds these nodes.
pub record Holds (s : Links) (content : ℕ) (nodes : List ℕ) : Type 0 where
  pub linked : IsLinked s
  pub constructed : s.prev content ≢ 0
  pub leads : Leads s content nodes content

-- A new list holds nothing.
pub construct-Holds :
    (s : Links) (content : ℕ)
    → IsLinked s
    → s.prev content ≡ 0
    → content ≢ 0
    → Holds (construct s content) content []
unfolding construct store
construct-Holds s content v f c = record {
  linked = record {
    forth = λ n e. ground (arith, v.forth n, v.alone content f);
    hither = λ n e. ground (arith, v.hither n, v.alone content f, v.null);
    alone = λ n e. ground (arith, v.alone n);
    null = ground (arith, v.null);
  };
  constructed = ground arith;
  leads = ground arith;
}

module _ (s : Links) (content : ℕ) (nodes : List ℕ) (other : ℕ) (w : Holds s content nodes)
    (o : other ≢ 0) (f : s.prev other ≡ 0) where
  last : s.next (s.prev content) ≡ content
  last = w.linked.hither content w.constructed

  last_in_list : s.prev (s.prev content) ≢ 0
  last_in_list e =
      w.constructed (ap s.prev (sym last ∙ w.linked.alone (s.prev content) e) ∙ w.linked.null)

  push_back-Holds :
      Holds (push_back s content other) content (nodes ++ other ∷ [])
      × (back (push_back s content other) content ≡ other)
  unfolding push_back back end
  push_back-Holds =
      let pos = s.prev content in
      (
        record {
          linked = insert-IsLinked s w.linked pos other last_in_list f o;
          constructed =
              ground (arith, insert-prev s w.linked pos other last_in_list f content, last);
          leads =
              insert-back s w.linked pos other last_in_list f content content nodes last
                w.constructed w.constructed w.leads;
        },
        ground (
          arith,
          last,
          insert-prev s w.linked pos other last_in_list f content,
          insert-prev s w.linked pos other last_in_list f other,
          insert-next s w.linked pos other last_in_list f pos,
        ),
      )

  push_front-Holds :
      Holds (push_front s content other) content (other ∷ nodes)
      × (front (push_front s content other) content ≡ other)
  unfolding push_front front begin
  push_front-Holds =
      let leads = insert-front s w.linked content other w.constructed f o nodes w.leads in
      (
        record {
          linked = insert-IsLinked s w.linked content other w.constructed f o;
          constructed =
              ground (arith, insert-prev s w.linked content other w.constructed f content);
          leads = leads;
        },
        leads.0,
      )

without-outside :
    (s : Links) (v : IsLinked s) (node a b : ℕ) (nodes : List ℕ)
    → s.prev node ≡ 0
    → s.prev a ≢ 0
    → Leads s a nodes b
    → without node nodes ≡ nodes
without-outside s v node a b [] f i e = refl
without-outside s v node a b (x ∷ xs) f i (e, (d, l)) =
    let x_in : s.prev x ≢ 0 = λ z. after_in_list s v a i (ap s.prev e ∙ z) in
    let other : (x == node) ≡ false = ground arith in
    rw other (ap (◌∷◌ x) (without-outside s v node x b xs f x_in l))

-- On a list that holds some nodes, a node that is in no list is put last by push_back and first by
-- push_front: the list holds the nodes that were, in their order, before or behind it, all links
-- agree in both directions, and back or front gives the node.
pub push-Holds :
    (s : Links) (content : ℕ) (nodes : List ℕ) (other : ℕ)
    → Holds s content nodes
    → other ≢ 0
    → s.prev other ≡ 0
    → (Holds (push_back s content other) content (nodes ++ other ∷ [])
        × (back (push_back s content other) content ≡ other))
      × (Holds (push_front s content other) content (other ∷ nodes)
          × (front (push_front s content other) content ≡ other))
push-Holds s content nodes other w o f =
    (push_back-Holds s content nodes other w o f, push_front-Holds s content nodes other w o f)

unlink_outside : (s : Links) (node : ℕ) → s.prev node ≡ 0 → unlink s node ≡ s
unfolding unlink in_list
unlink_outside s node f = rw f refl

-- After unlink of any node but the list's own, the list holds the nodes that were but this one, in
-- their order, whether it was in this list, in another or in none; the node is in no list, and all
-- links agree in both directions.
pub unlink-Holds :
    (s : Links) (content : ℕ) (nodes : List ℕ) (node : ℕ)
    → Holds s content nodes
    → node ≢ content
    → Holds (unlink s node) content (without node nodes) × (in_list (unlink s node) node ≡ false)
unfolding in_list
unlink-Holds s content nodes node w d = elim (Bool-cases (s.prev node == 0)) [
  | inl e ↦
      let free : s.prev node ≡ 0 = ground arith in
      let same = without-outside s w.linked node content content nodes free w.constructed w.leads in
      rw (unlink_outside s node free, same) (w, rw free refl)
  | inr e ↦
      let held : s.prev node ≢ 0 = ground arith in
      (
        record {
          linked = unlink_in-IsLinked s w.linked node held;
          constructed = ground (
            arith,
            unlink-prev s w.linked node held content,
            w.linked.hither node held,
            w.linked.forth node held,
          );
          leads =
              unlink_in-Leads s w.linked node held content content nodes w.constructed
                (λ z. d (sym z)) (λ z. d (sym z)) w.leads;
        },
        ground (arith, unlink-prev s w.linked node held node),
      )
]

-- empty tells whether the list holds no nodes.
empty-Holds :
    (s : Links) (content : ℕ) (nodes : List ℕ)
    → Holds s content nodes
    → empty s content ≡ elim nodes [ [] ↦ true | _ ∷ _ ↦ false ]
unfolding empty
empty-Holds s content [] w = ground (arith, w.linked.forth content w.constructed, w.leads)
empty-Holds s content (x ∷ xs) w =
    ground (arith, w.linked.hither content w.constructed, w.leads.0, w.leads.1.0)
