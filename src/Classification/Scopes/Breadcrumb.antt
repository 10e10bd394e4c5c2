-- ===== src/Classification/Scopes/Breadcrumb.antt =====
-- In a rooted tree the loop of `_breadcrumb` ends, with one name for each level.
use hll.Prelude.{
  ℕ, zero, suc, ◌+◌, ◌≤◌, ◌<◌, String, ◌≡◌, refl, sym, ◌∙◌, subst, Bool, true, not, ◌&&◌, Option,
  none, some, List, [], ◌∷◌, arith, length, filter, any, any-filter, length-filter, ◌==◌,
  Bool-cases, inl, inr,
}
use hll.Exec.{ok}
use hll.SourcePipeline.Model.Rows.{key-get_row}
use hll.Classification.Model.{TaxonomyNode}
use hll.Classification.Scopes.{node_by_id, climb, breadcrumb}

-- What a node's depth says of its parent.
abbrev pub Above : List TaxonomyNode → ℕ → Option ℕ → Type 0
Above nodes depth none = depth ≡ 0
Above nodes depth (some p) =
    (q : TaxonomyNode) × (node_by_id p nodes ≡ some q) × (depth ≡ suc q.depth)

pub record Rooted (nodes : List TaxonomyNode) : Type 0 where
  pub above : (n : TaxonomyNode) → node_by_id n.id nodes ≡ some n → Above nodes n.depth n.parent_id

any-filtered-out :
    {A : Type 0} (p : A → Bool) (xs : List A)
    → any p xs ≡ true
    → length (filter (λ x. not (p x)) xs) < length xs
any-filtered-out p [] h = cc
any-filtered-out p (x ∷ xs) h =
    ground (arith, any-filtered-out p xs, length-filter (λ x. not (p x)) xs)

any_same :
    {A : Type 0} (p q : A → Bool) (xs : List A)
    → ((x : A) → p x ≡ true → q x ≡ true)
    → any p xs ≡ true
    → any (λ x. q x && p x) xs ≡ true
any_same p q [] imp h = cc
any_same p q (x ∷ xs) imp h = ground (arith, imp x, any_same p q xs imp)

-- A list with a node at each of the first `d` depths has at least `d` nodes.
levels :
    (d : ℕ) (nodes : List TaxonomyNode)
    → ((k : ℕ) → k < d → any (λ n. n.depth == k) nodes ≡ true)
    → d ≤ length nodes
levels zero nodes h = omega arith
levels (suc d) nodes h = omega (
  arith,
  any-filtered-out (λ (n : TaxonomyNode). n.depth == d) nodes (h d (omega arith)),
  levels d (filter (λ (n : TaxonomyNode). not (n.depth == d)) nodes) (λ k lt.
      any-filter (λ (n : TaxonomyNode). n.depth == k) (λ n. not (n.depth == d)) nodes
      ∙ any_same (λ (n : TaxonomyNode). n.depth == k) (λ n. not (n.depth == d)) nodes
          (λ n e. ground arith) (h k (omega (arith, lt)))),
)

any-get_row :
    (id d : ℕ) (nodes : List TaxonomyNode) (n : TaxonomyNode)
    → node_by_id id nodes ≡ some n
    → n.depth ≡ d
    → any (λ (m : TaxonomyNode). m.depth == d) nodes ≡ true
any-get_row id d [] n h e = cc
any-get_row id d (x ∷ nodes) n h e = ground (arith, any-get_row id d nodes n)

module _ (nodes : List TaxonomyNode) (rooted : Rooted nodes) where
  found : (p : ℕ) (q : TaxonomyNode) → node_by_id p nodes ≡ some q → node_by_id q.id nodes ≡ some q
  found p q h =
      subst (λ k. node_by_id k nodes ≡ some q)
        (sym (key-get_row (λ (n : TaxonomyNode). n.id) p nodes q h)) h

  parent_of :
      (d : ℕ) (n : TaxonomyNode)
      → node_by_id n.id nodes ≡ some n
      → n.depth ≡ suc d
      → (q : TaxonomyNode) × (node_by_id q.id nodes ≡ some q) × (q.depth ≡ d)
  parent_of d n there e = go n.parent_id (rooted.above n there)
    where
      go :
          (parent : Option ℕ)
          → Above nodes n.depth parent
          → (q : TaxonomyNode) × (node_by_id q.id nodes ≡ some q) × (q.depth ≡ d)
      go none zero_depth = absurd (omega (arith, e, zero_depth))
      go (some p) (q, at, deeper) = (q, found p q at, omega (arith, e, deeper))

  levels_above :
      (d : ℕ) (n : TaxonomyNode)
      → node_by_id n.id nodes ≡ some n
      → n.depth ≡ d
      → (k : ℕ) → k < suc d
      → any (λ (m : TaxonomyNode). m.depth == k) nodes ≡ true
  levels_above zero n there e k lt = any-get_row n.id k nodes n there (omega arith)
  levels_above (suc d) n there e k lt =
      let (q, at, shallower) = parent_of d n there e in
      let above = levels_above d q at shallower k in
      elim (Bool-cases (k == suc d)) [
        | inl same ↦ any-get_row n.id k nodes n there (ground arith)
        | inr below ↦ above (ground arith)
      ]

  enough : (n : TaxonomyNode) → node_by_id n.id nodes ≡ some n → n.depth < length nodes
  enough n there = levels (suc n.depth) nodes (levels_above n.depth n there refl)

  climb_step :
      (fuel p : ℕ) (q : TaxonomyNode) (names : List String)
      → node_by_id p nodes ≡ some q
      → climb (suc fuel) nodes (some p) names ≡ climb fuel nodes q.parent_id (q.name ∷ names)
  unfolding climb
  climb_step fuel p q names at = ground arith

  climbs :
      (fuel depth : ℕ) (parent : Option ℕ) (names : List String)
      → Above nodes depth parent
      → depth ≤ fuel
      → (path : List String) × (climb fuel nodes parent names ≡ ok path)
        × (length path ≡ length names + depth)
  unfolding climb
  climbs fuel depth none names root le = (names, refl, omega (arith, root))
  climbs zero depth (some p) names (q, at, deeper) le = absurd (omega (arith, deeper, le))
  climbs (suc fuel) depth (some p) names (q, at, deeper) le =
      let (path, e, len) =
        climbs fuel q.depth q.parent_id (q.name ∷ names) (rooted.above q (found p q at))
          (omega (arith, deeper, le)) in
      (path, climb_step fuel p q names at ∙ e, omega (arith, len, deeper))

  -- In a tree in which each node but the roots has its parent one level above, the breadcrumb of a
  -- node is found, and it has one name for each level down to the node.
  pub breadcrumb_ends :
      (n : TaxonomyNode)
      → node_by_id n.id nodes ≡ some n
      → (path : List String) × (breadcrumb nodes n ≡ ok path) × (length path ≡ suc n.depth)
  unfolding breadcrumb
  breadcrumb_ends n there =
      let (path, e, len) =
        climbs (length nodes) n.depth n.parent_id (n.name ∷ []) (rooted.above n there)
          (omega (arith, enough n there)) in
      (path, e, omega (arith, len))
