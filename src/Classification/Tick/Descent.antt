-- ===== src/Classification/Tick/Descent.antt =====
-- How a tick moves the cards.
use hll.Prelude.{
  ℕ, ◌≡◌, refl, subst, true, Option, none, some, List, Bool-cases, inl, inr, ◌==◌, ==_iff,
}
use hll.SourcePipeline.Model.{get_row, update_row}
use hll.SourcePipeline.Model.Rows.{get_row-update_row}
use hll.Classification.Model.{TaxonomyNode, NodeTaxonomyAssignment, Services, State}
use hll.Classification.Taxonomy.{assignment_row, set_current_assignment}
use hll.Classification.Results.Moves.{
  has_child, CanMove, Closed, moved_row, set_current_assignment_state, assign_found,
}
use hll.Classification.Runtime.{Settings}
use hll.Classification.Tick.{tick}
use hll.Classification.Tick.Closure.{tick_step}

-- From a scope to itself or, child by child, to one below it.
pub data Descends (nodes : List TaxonomyNode) : ℕ → ℕ → Type 0 where
  stay : (a : ℕ) → Descends nodes a a
  down : (a b c : ℕ) → has_child a b nodes ≡ true → Descends nodes b c → Descends nodes a c

Descends-trans :
    (nodes : List TaxonomyNode) (a b c : ℕ)
    → Descends nodes a b
    → Descends nodes b c
    → Descends nodes a c
Descends-trans nodes a b c (stay x) k = k
Descends-trans nodes a b c (down x y z h rest) k = down x y c h (Descends-trans nodes y z c rest k)

-- A card that has a scope stays in it or goes below it; one that has none gets none.
abbrev pub Below :
    List TaxonomyNode → Option NodeTaxonomyAssignment → Option NodeTaxonomyAssignment → Type 0
Below nodes none none = Unit
Below nodes none (some b) = ⊥
Below nodes (some a) none = ⊥
Below nodes (some a) (some b) = Descends nodes a.taxonomy_node_id b.taxonomy_node_id

Below-refl : (nodes : List TaxonomyNode) (o : Option NodeTaxonomyAssignment) → Below nodes o o
Below-refl nodes none = tt
Below-refl nodes (some a) = stay a.taxonomy_node_id

Below-trans :
    (nodes : List TaxonomyNode) (o p q : Option NodeTaxonomyAssignment)
    → Below nodes o p
    → Below nodes p q
    → Below nodes o q
Below-trans nodes none none none h k = tt
Below-trans nodes (some a) (some b) (some c) h k = Descends-trans nodes _ _ _ h k
Below-trans nodes none none (some c) h k = k
Below-trans nodes none (some b) q h k = absurd h
Below-trans nodes (some a) none q h k = absurd h
Below-trans nodes (some a) (some b) none h k = k

-- The tree is the same, and each card stays in its scope or goes below it.
pub record MovesDown (s t : State) : Type 0 where
  pub tree : t.taxonomy_nodes ≡ s.taxonomy_nodes
  pub at :
      (node_id : ℕ) → Below s.taxonomy_nodes (assignment_row node_id s) (assignment_row node_id t)

moved-Below :
    (node_id target now : ℕ) (s : State) (h : CanMove s node_id target) (id : ℕ)
    → Below s.taxonomy_nodes (assignment_row id s) (
        get_row
          (λ a. a.node_id)
          id
          (update_row (λ r. r.node_id) node_id (moved_row target now) s.assignments))
moved-Below node_id target now s h id =
    rw
      (get_row-update_row (λ (r : NodeTaxonomyAssignment). r.node_id) node_id id
        (moved_row target now) s.assignments (λ a. refl))
      (elim (Bool-cases (node_id == id)) [
        | inl e ↦
            (let there =
                subst (λ k. assignment_row k s ≡ some h.assignment) ((==_iff node_id id).0 e)
                  h.found in
              rw (e, there) (down _ target target h.child (stay target)))
        | inr e ↦ rw e (Below-refl s.taxonomy_nodes (assignment_row id s))
      ])

MovesDown-move :
    (node_id target now : ℕ) (s : State)
    → CanMove s node_id target
    → MovesDown s (set_current_assignment node_id target now s).1
MovesDown-move node_id target now s h =
    rw
      (
        set_current_assignment_state node_id target now s,
        assign_found node_id target now s h.assignment h.found,
      )
      (record { tree = refl; at = moved-Below node_id target now s h })

MovesDown-Closed : Closed MovesDown
MovesDown-Closed = record {
  order = record {
    reflexive =
        λ s. record { tree = refl; at = λ id. Below-refl s.taxonomy_nodes (assignment_row id s) };
    transitive = λ s t u p q. record {
      tree = cc (p.tree, q.tree);
      at = λ id.
          Below-trans s.taxonomy_nodes (assignment_row id s) (assignment_row id t) _ (p.at id) (
            subst (λ nodes. Below nodes (assignment_row id t) (assignment_row id u)) p.tree
              (q.at id));
    };
  };
  same = λ s t h. record {
    tree = h.tree;
    at = λ id. rw (h.assigned) (Below-refl s.taxonomy_nodes (assignment_row id s));
  };
  move = MovesDown-move;
}

-- A tick keeps the tree, and each card stays in its scope or goes below it, child by child; no card
-- loses its scope or gets a first one, whether the tick returns or raises.
pub tick-MovesDown :
    (svc : Services) (c : Settings) (now : ℕ) (s : State) → MovesDown s (tick svc c now s).1
tick-MovesDown svc c now s =
    (tick_step MovesDown-Closed svc now
        (λ n. record {
          at = λ s. record {
            tree = refl;
            at = λ id. Below-refl s.taxonomy_nodes (assignment_row id s);
          };
        })
        c).at
      s
