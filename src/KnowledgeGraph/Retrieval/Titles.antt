-- ===== src/KnowledgeGraph/Retrieval/Titles.antt =====
-- The connected titles: few enough, distinct, and none that was excluded.
use hll.Prelude.{
  ℕ, zero, suc, ◌≤◌, String, ◌≡◌, Bool, false, List, [], ◌∷◌, arith, length, All, All-map, str_eq,
  ◌||◌, Bool-cases, inl, inr,
}
use hll.KnowledgeGraph.Model.{State}
use hll.KnowledgeGraph.Repo.Edges.{is_in}
use hll.KnowledgeGraph.Retrieval.{
  ConnectedTitleCandidate, has_title, collect_titles, get_connected_titles,
  fetch_connected_title_candidates,
}

abbrev pub Distinct : List String → Type 0
Distinct [] = Unit
Distinct (t ∷ ts) = All (λ u. str_eq t u ≡ false) ts × Distinct ts

-- Titles none of which is in `seen`, each once.
pub record Fresh (seen : List String) (titles : List String) : Type 0 where
  pub unseen : All (λ t. has_title seen t ≡ false) titles
  pub distinct : Distinct titles

or_false : (a b : Bool) → (a || b) ≡ false → (a ≡ false) × (b ≡ false)
or_false a b h = ground arith

collect-Fresh :
    (room : ℕ) (candidates : List ConnectedTitleCandidate) (ids : List ℕ) (seen : List String)
    → Fresh seen (collect_titles room candidates ids seen)
unfolding collect_titles
collect-Fresh zero candidates ids seen = record { unseen = tt; distinct = tt }
collect-Fresh (suc room) [] ids seen = record { unseen = tt; distinct = tt }
collect-Fresh (suc room) (c ∷ candidates) ids seen =
    let taken = collect-Fresh room candidates (c.node_id ∷ ids) (c.title ∷ seen) in
    elim (Bool-cases (is_in ids c.node_id || has_title seen c.title)) [
      | inl skip ↦ rw skip (collect-Fresh (suc room) candidates ids seen)
      | inr take ↦ rw take (record {
        unseen = (
          (or_false (is_in ids c.node_id) (has_title seen c.title) take).1,
          All-map (λ t h. (or_false (str_eq c.title t) (has_title seen t) h).1) _ taken.unseen,
        );
        distinct = (
          All-map (λ t h. (or_false (str_eq c.title t) (has_title seen t) h).0) _ taken.unseen,
          taken.distinct,
        );
      })
    ]

length-collect_titles :
    (room : ℕ) (candidates : List ConnectedTitleCandidate) (ids : List ℕ) (seen : List String)
    → length (collect_titles room candidates ids seen) ≤ room
unfolding collect_titles
length-collect_titles zero candidates ids seen = omega arith
length-collect_titles (suc room) [] ids seen = omega arith
length-collect_titles (suc room) (c ∷ candidates) ids seen = ground (
  arith,
  length-collect_titles (suc room) candidates ids seen,
  length-collect_titles room candidates (c.node_id ∷ ids) (c.title ∷ seen),
)

-- At most `limit` titles come back, each once, and none of them is an excluded one.
pub get_connected_titles_sound :
    {Real Taxonomy : Type 0} (text_le : String → String → Bool) (matched : List ℕ)
    (excluded : List String) (limit : ℕ) (s : State Real Taxonomy)
    → (length (get_connected_titles text_le matched excluded limit s) ≤ limit)
      × Fresh excluded (get_connected_titles text_le matched excluded limit s)
unfolding get_connected_titles
get_connected_titles_sound text_le [] excluded limit s =
    (omega arith, record { unseen = tt; distinct = tt })
get_connected_titles_sound text_le (id ∷ ids) excluded limit s =
    let candidates = fetch_connected_title_candidates text_le (id ∷ ids) s in
    (length-collect_titles limit candidates [] excluded, collect-Fresh limit candidates [] excluded)
