-- ===== src/Layout/Edges.antt =====
-- The canonical edges of a layout, `_canonical_edges` of modules/taxonomy/layout.py: one for each pair.
use hll.Prelude.{
  ℕ, ◌≤◌, min, max, ◌≡◌, refl, sym, ◌∙◌, Bool, true, false, ◌&&◌, List, [], ◌∷◌, arith, Bool-cases,
  inl, inr, if◌then◌else◌, filter, any, ◌==◌, leb, sort, insert_sorted, length, All, All-sort,
}
use hll.Layout.Model.{LayoutEdge}
use hll.Layout.Build.{ordered_edge, same_pair, within_ids, first_of_pairs, pair_le, canonical_edges}

module _ {ℓ} {A : Type ℓ} (le : A → A → Bool) (p : A → Bool) where
  filter-insert_sorted_out :
      (x : A) (ys : List A) → p x ≡ false → filter p (insert_sorted le x ys) ≡ filter p ys
  unfolding insert_sorted
  filter-insert_sorted_out x [] h = ground (arith, h)
  filter-insert_sorted_out x (y ∷ ys) h = ground (arith, h, filter-insert_sorted_out x ys h)

  filter-insert_sorted_in :
      (x : A) (ys : List A)
      → p x ≡ true
      → filter p ys ≡ []
      → filter p (insert_sorted le x ys) ≡ x ∷ []
  unfolding insert_sorted
  filter-insert_sorted_in x [] h k = ground (arith, h)
  filter-insert_sorted_in x (y ∷ ys) h k = ground (arith, h, k, filter-insert_sorted_in x ys h)

  empty_of_length : {B : Type ℓ} (x : B) (xs : List B) → length (x ∷ xs) ≤ 1 → xs ≡ []
  empty_of_length x [] h = refl
  empty_of_length x (y ∷ ys) h = absurd (omega (arith, h))

  -- Sorting keeps what a test selects, where that is at most one element.
  filter-sort : (xs : List A) → length (filter p xs) ≤ 1 → filter p (sort le xs) ≡ filter p xs
  unfolding sort
  filter-sort [] h = refl
  filter-sort (x ∷ xs) h = elim (Bool-cases (p x)) [
    | inl e ↦
        let one : length (x ∷ filter p xs) ≤ 1 = ground (arith, h, e) in
        let empty = empty_of_length x (filter p xs) one in
        let rest : filter p (sort le xs) ≡ filter p xs = filter-sort xs (ground (arith, empty)) in
        filter-insert_sorted_in x (sort le xs) e (rest ∙ empty) ∙ ground (arith, e, empty)
    | inr e ↦
        let few : length (filter p xs) ≤ 1 = ground (arith, h, e) in
        filter-insert_sorted_out x (sort le xs) e ∙ filter-sort xs few ∙ ground (arith, e)
  ]

-- The two ends in any order
abbrev both : List ℕ → ℕ → ℕ → Bool
both ids s t = any (λ id. id == s) ids && any (λ id. id == t) ids

both-min-max : (ids : List ℕ) (s t : ℕ) → both ids (min s t) (max s t) ≡ both ids s t
both-min-max ids s t = elim (Bool-cases (leb s t)) [
  | inl h ↦
      let low : min s t ≡ s = ground (arith, h) in
      let high : max s t ≡ t = ground (arith, h) in rw (low, high) refl
  | inr h ↦
      let low : min s t ≡ t = ground (arith, h) in
      let high : max s t ≡ s = ground (arith, h) in rw (low, high) ground arith
]

module _ {Float : Type 0} where
  same_pair_trans :
      (a b c : LayoutEdge Float)
      → same_pair a b ≡ true
      → same_pair b c ≡ true
      → same_pair a c ≡ true
  same_pair_trans a b c h k = ground (arith, h, k)

  same_pair_sym : (a b : LayoutEdge Float) → same_pair a b ≡ true → same_pair b a ≡ true
  same_pair_sym a b h = ground (arith, h)

  any-pair :
      (a b : LayoutEdge Float) (edges : List (LayoutEdge Float))
      → same_pair a b ≡ true
      → any (same_pair b) edges ≡ true
      → any (same_pair a) edges ≡ true
  any-pair a b [] h k = k
  any-pair a b (e ∷ edges) h k = elim (Bool-cases (same_pair b e)) [
    | inl m ↦ rw (same_pair_trans a b e h m) refl
    | inr m ↦
        let rest : any (same_pair b) edges ≡ true = ground (arith, k, m) in
        ground (arith, any-pair a b edges h rest)
  ]

  any_of_same_pair :
      (a b : LayoutEdge Float) (edges : List (LayoutEdge Float))
      → same_pair a b ≡ true
      → any (same_pair a) edges ≡ any (same_pair b) edges
  any_of_same_pair a b edges h = elim (Bool-cases (any (same_pair b) edges)) [
    | inl k ↦ any-pair a b edges h k ∙ sym k
    | inr k ↦ elim (Bool-cases (any (same_pair a) edges)) [
      | inl m ↦ m ∙ sym (any-pair b a edges (same_pair_sym a b h) m)
      | inr m ↦ m ∙ sym k
    ]
  ]

  -- The first of the edges that is within the nodes and has the pair.
  abbrev pub first_edge :
      List ℕ → LayoutEdge Float → List (LayoutEdge Float) → List (LayoutEdge Float)
  first_edge ids q [] = []
  first_edge ids q (e ∷ edges) =
      let rest = first_edge ids q edges in
      if within_ids ids e && same_pair q (ordered_edge e) then ordered_edge e ∷ [] else rest

  length-first_edge :
      (ids : List ℕ) (q : LayoutEdge Float) (edges : List (LayoutEdge Float))
      → length (first_edge ids q edges) ≤ 1
  length-first_edge ids q [] = omega arith
  length-first_edge ids q (e ∷ edges) = ground (arith, length-first_edge ids q edges)

  abbrev FirstOnly :
      List ℕ → LayoutEdge Float → List (LayoutEdge Float) → List (LayoutEdge Float) → Type 0
  FirstOnly ids q seen edges =
      filter (same_pair q) (first_of_pairs ids seen edges)
      ≡ (if any (same_pair q) seen then [] else first_edge ids q edges)

  step_other :
      (ids : List ℕ) (q : LayoutEdge Float) (seen : List (LayoutEdge Float)) (e : LayoutEdge Float)
      (edges : List (LayoutEdge Float))
      → within_ids ids e ≡ true
      → same_pair q (ordered_edge e) ≡ false
      → FirstOnly ids q seen edges
      → FirstOnly ids q (ordered_edge e ∷ seen) edges
      → FirstOnly ids q seen (e ∷ edges)
  unfolding first_of_pairs
  step_other ids q seen e edges within other skipped kept =
      elim (Bool-cases (any (same_pair (ordered_edge e)) seen)) [
        | inl t ↦ rw (within, other, t) skipped
        | inr f ↦ rw (within, other, f, kept) rw other refl
      ]

  step_same :
      (ids : List ℕ) (q : LayoutEdge Float) (seen : List (LayoutEdge Float)) (e : LayoutEdge Float)
      (edges : List (LayoutEdge Float))
      → within_ids ids e ≡ true
      → same_pair q (ordered_edge e) ≡ true
      → FirstOnly ids q seen edges
      → FirstOnly ids q (ordered_edge e ∷ seen) edges
      → FirstOnly ids q seen (e ∷ edges)
  unfolding first_of_pairs
  step_same ids q seen e edges within same skipped kept =
      elim (Bool-cases (any (same_pair (ordered_edge e)) seen)) [
        | inl t ↦
            let there = any_of_same_pair q (ordered_edge e) seen same ∙ t in
            rw (within, t, there) (skipped ∙ rw there refl)
        | inr f ↦
            let missing = any_of_same_pair q (ordered_edge e) seen same ∙ f in
            let none_left : filter (same_pair q) (first_of_pairs ids (ordered_edge e ∷ seen) edges)
                ≡ [] =
              kept ∙ rw same refl in
            rw (within, f, missing, same, none_left) refl
      ]

  filter-first_of_pairs :
      (ids : List ℕ) (q : LayoutEdge Float) (seen edges : List (LayoutEdge Float))
      → filter (same_pair q) (first_of_pairs ids seen edges)
        ≡ (if any (same_pair q) seen then [] else first_edge ids q edges)
  unfolding first_of_pairs
  filter-first_of_pairs ids q seen [] = ground arith
  filter-first_of_pairs ids q seen (e ∷ edges) = elim (Bool-cases (within_ids ids e)) [
    | inr out ↦ rw out (filter-first_of_pairs ids q seen edges)
    | inl within ↦ elim (Bool-cases (same_pair q (ordered_edge e))) [
      | inr other ↦
          step_other ids q seen e edges within other (filter-first_of_pairs ids q seen edges)
            (filter-first_of_pairs ids q (ordered_edge e ∷ seen) edges)
      | inl same ↦
          step_same ids q seen e edges within same (filter-first_of_pairs ids q seen edges)
            (filter-first_of_pairs ids q (ordered_edge e ∷ seen) edges)
    ]
  ]

  -- Each edge goes from the lower node to the higher, within the nodes, and a pair has the first edge given.
  pub record Canonical (ids : List ℕ) (edges result : List (LayoutEdge Float)) : Type 0 where
    pub ends : All (λ e. e.source_node_id ≤ e.target_node_id × within_ids ids e ≡ true) result
    pub first : (q : LayoutEdge Float) → filter (same_pair q) result ≡ first_edge ids q edges

  pub within_ids-ordered_edge :
      (ids : List ℕ) (e : LayoutEdge Float) → within_ids ids (ordered_edge e) ≡ within_ids ids e
  within_ids-ordered_edge ids e = both-min-max ids e.source_node_id e.target_node_id

  first_of_pairs-ends :
      (ids : List ℕ) (seen edges : List (LayoutEdge Float))
      → All
          (λ e. e.source_node_id ≤ e.target_node_id × within_ids ids e ≡ true)
          (first_of_pairs ids seen edges)
  unfolding first_of_pairs
  first_of_pairs-ends ids seen [] = tt
  first_of_pairs-ends ids seen (e ∷ edges) = elim (Bool-cases (within_ids ids e)) [
    | inr out ↦ rw out (first_of_pairs-ends ids seen edges)
    | inl within ↦ elim (Bool-cases (any (same_pair (ordered_edge e)) seen)) [
      | inl t ↦ rw (within, t) (first_of_pairs-ends ids seen edges)
      | inr f ↦
          rw (within, f)
            (
              (omega arith, within_ids-ordered_edge ids e ∙ within),
              first_of_pairs-ends ids (ordered_edge e ∷ seen) edges,
            )
    ]
  ]

  pub canonical_edges-Canonical :
      (edges : List (LayoutEdge Float)) (ids : List ℕ)
      → Canonical ids edges (canonical_edges edges ids)
  unfolding canonical_edges
  canonical_edges-Canonical edges ids = record {
    ends = All-sort pair_le _ _ (first_of_pairs-ends ids [] edges);
    first = λ q.
        let found = filter-first_of_pairs ids q [] edges in
        filter-sort pair_le (same_pair q) (first_of_pairs ids [] edges)
          (rw found (length-first_edge ids q edges))
        ∙ found;
  }
