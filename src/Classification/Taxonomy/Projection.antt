-- ===== src/Classification/Taxonomy/Projection.antt =====
-- Which edges a projection holds after it is cleared and filled.
use hll.Prelude.{
  ℕ, ◌≡◌, refl, subst, ap, ◌∙◌, Bool, true, false, not, ◌&&◌, ◌||◌, List, [], ◌∷◌, ◌++◌, arith,
  Bool-cases, inl, inr, str_eq, eq_iff, ==_iff, ◌==◌, if◌then◌else◌, any, any-append, filter,
}
use text.Mathlib.TextPositions.{eq_refl}
use hll.KnowledgeGraph.Model.{TaxonomyScopeIdentity}
use hll.Classification.Model.{TaxonomyScopeProjectionEdge, same_scope}
use hll.Classification.Taxonomy.{
  insert_distinct, sorted_set, add_projected_edge, add_projected_edges,
}

-- The projection of the scope holds the edge.
abbrev pub projected : TaxonomyScopeIdentity → ℕ → List TaxonomyScopeProjectionEdge → Bool
projected scope id rows =
    any (λ (e : TaxonomyScopeProjectionEdge). same_scope e.scope scope && e.edge_id == id) rows

abbrev pub holds : ℕ → List ℕ → Bool
holds id ids = any (λ k. k == id) ids

holds-insert_distinct :
    (id x : ℕ) (ys : List ℕ) → holds id (insert_distinct x ys) ≡ (x == id || holds id ys)
holds-insert_distinct id x [] = refl
holds-insert_distinct id x (y ∷ ys) = ground (arith, holds-insert_distinct id x ys)

pub holds-sorted_set : (id : ℕ) (xs : List ℕ) → holds id (sorted_set xs) ≡ holds id xs
unfolding sorted_set
holds-sorted_set id [] = refl
holds-sorted_set id (x ∷ xs) =
    holds-insert_distinct id x (sorted_set xs) ∙ ap (λ b. x == id || b) (holds-sorted_set id xs)

same_scope_refl : (a : TaxonomyScopeIdentity) → same_scope a a ≡ true
same_scope_refl a = rw (eq_refl a.scope_kind) (ground arith)

and_left : (a b : Bool) → (a && b) ≡ true → a ≡ true
and_left a b h = ground arith

and_right : (a b : Bool) → (a && b) ≡ true → b ≡ true
and_right a b h = ground arith

same_kind : (a b : TaxonomyScopeIdentity) → same_scope a b ≡ true → a.scope_kind ≡ b.scope_kind
same_kind a b h =
    (eq_iff a.scope_kind b.scope_kind).0
      (and_left (str_eq a.scope_kind b.scope_kind) (a.taxonomy_node_id == b.taxonomy_node_id) h)

same_number :
    (a b : TaxonomyScopeIdentity) → same_scope a b ≡ true → a.taxonomy_node_id ≡ b.taxonomy_node_id
same_number a b h =
    (==_iff a.taxonomy_node_id b.taxonomy_node_id).0
      (and_right (str_eq a.scope_kind b.scope_kind) (a.taxonomy_node_id == b.taxonomy_node_id) h)

both_true : (a b : Bool) → a ≡ true → b ≡ true → (a && b) ≡ false → ⊥
both_true a b h k e = ground arith

-- One scope cannot be two.
pub same_scope_apart :
    (e a b : TaxonomyScopeIdentity)
    → same_scope a b ≡ false
    → same_scope e b ≡ true
    → same_scope e a ≡ false
same_scope_apart e a b apart same = elim (Bool-cases (same_scope e a)) [
  | inr h ↦ h
  | inl h ↦
      (let kind : str_eq a.scope_kind b.scope_kind ≡ true =
          cc (same_kind e a h, same_kind e b same, eq_refl e.scope_kind) in
        let number : (a.taxonomy_node_id == b.taxonomy_node_id) ≡ true =
          ground (arith, same_number e a h, same_number e b same) in
        absurd (
          both_true (str_eq a.scope_kind b.scope_kind) (a.taxonomy_node_id == b.taxonomy_node_id)
            kind number apart))
]

module _ (scope : TaxonomyScopeIdentity) where
  projected-add_projected_edge :
      (id k : ℕ) (rows : List TaxonomyScopeProjectionEdge)
      → projected scope id (add_projected_edge scope k rows) ≡ (k == id || projected scope id rows)
  projected-add_projected_edge id k rows = elim (Bool-cases (projected scope k rows)) [
    | inl there ↦ rw there (elim (Bool-cases (k == id)) [
      | inl e ↦ rw e (subst (λ x. projected scope x rows ≡ true) ((==_iff k id).0 e) there)
      | inr e ↦ rw e refl
    ])
    | inr new ↦
        rw
          (
            new,
            any-append
                (λ (e : TaxonomyScopeProjectionEdge). same_scope e.scope scope && e.edge_id == id)
                rows (record { scope = scope; edge_id = k } ∷ []),
          )
          (rw (same_scope_refl scope) (ground arith))
  ]

  pub projected-add_projected_edges :
      (id : ℕ) (ids : List ℕ) (rows : List TaxonomyScopeProjectionEdge)
      → projected scope id (add_projected_edges scope ids rows)
        ≡ (holds id ids || projected scope id rows)
  unfolding add_projected_edges
  projected-add_projected_edges id [] rows = refl
  projected-add_projected_edges id (k ∷ ids) rows =
      rw
        (
          projected-add_projected_edges id ids (add_projected_edge scope k rows),
          projected-add_projected_edge id k rows,
        )
        (ground arith)

  pub projected-cleared :
      (id : ℕ) (rows : List TaxonomyScopeProjectionEdge)
      → projected scope id (filter (λ e. not (same_scope e.scope scope)) rows) ≡ false
  projected-cleared id [] = refl
  projected-cleared id (e ∷ rows) = elim (Bool-cases (same_scope e.scope scope)) [
    | inl h ↦ rw h (projected-cleared id rows)
    | inr h ↦ rw h (rw h (projected-cleared id rows))
  ]

  module _ (other : TaxonomyScopeIdentity) (apart : same_scope scope other ≡ false) where
    pub others-add_projected_edges :
        (id : ℕ) (ids : List ℕ) (rows : List TaxonomyScopeProjectionEdge)
        → projected other id (add_projected_edges scope ids rows) ≡ projected other id rows
    unfolding add_projected_edges
    others-add_projected_edges id [] rows = refl
    others-add_projected_edges id (k ∷ ids) rows =
        others-add_projected_edges id ids (add_projected_edge scope k rows)
        ∙ go (projected scope k rows)
      where
        go :
            (b : Bool)
            → projected other id
                (if b then rows else rows ++ record { scope = scope; edge_id = k } ∷ [])
              ≡ projected other id rows
        go true = refl
        go false =
            rw
              (
                any-append
                    (λ (e : TaxonomyScopeProjectionEdge).
                      same_scope e.scope other && e.edge_id == id)
                    rows (record { scope = scope; edge_id = k } ∷ []),
                apart,
              )
              (ground arith)

    pub others-cleared :
        (id : ℕ) (rows : List TaxonomyScopeProjectionEdge)
        → projected other id (filter (λ e. not (same_scope e.scope scope)) rows)
          ≡ projected other id rows
    others-cleared id [] = refl
    others-cleared id (e ∷ rows) = elim (Bool-cases (same_scope e.scope other)) [
      | inl h ↦
          rw (h, same_scope_apart e.scope scope other apart h)
            (rw h (ap (λ b. e.edge_id == id || b) (others-cleared id rows)))
      | inr h ↦ elim (Bool-cases (same_scope e.scope scope)) [
        | inl k ↦ rw (h, k) (others-cleared id rows)
        | inr k ↦ rw (h, k) (rw h (others-cleared id rows))
      ]
    ]
