-- ===== src/SourcePipeline/Model/Rows.antt =====
-- Rows of a table under `update_row` and under insertion at the end.
use mathlib.Core.Option
use hll.Prelude.{
  ℕ, ◌≡◌, refl, Bool, true, not, none, some, find, filter, All, List, [], ◌∷◌, ◌++◌, arith, ◌==◌,
  if◌then◌else◌,
}
use hll.SourcePipeline.Model.{get_row, update_row}

module _ {A : Type 0} (key : A → ℕ) where
  pub get_row-update_row :
      (k j : ℕ) (f : A → A) (rows : List A)
      → ((a : A) → key (f a) ≡ key a)
      → get_row key j (update_row key k f rows)
        ≡ (if k == j then Option.map f (get_row key j rows) else get_row key j rows)
  unfolding update_row
  get_row-update_row k j f [] same = ground arith
  get_row-update_row k j f (r ∷ rows) same =
      ground (arith, same r, get_row-update_row k j f rows same)

  pub get_row-append :
      (j : ℕ) (rows : List A) (r : A)
      → get_row key j (rows ++ r ∷ []) ≡ elim (get_row key j rows) [
        | none ↦ (if key r == j then some r else none)
        | some a ↦ some a
      ]
  get_row-append j [] r = ground arith
  get_row-append j (x ∷ rows) r = ground (arith, get_row-append j rows r)

  pub key-get_row : (k : ℕ) (rows : List A) (a : A) → get_row key k rows ≡ some a → key a ≡ k
  key-get_row k [] a h = cc
  key-get_row k (r ∷ rows) a h = ground (arith, key-get_row k rows a)

module _ {A : Type 0} (p : A → Bool) where
  pub find-append :
      (xs : List A) (x : A)
      → find p (xs ++ x ∷ [])
        ≡ elim (find p xs) [ none ↦ (if p x then some x else none) | some a ↦ some a ]
  find-append [] x = ground arith
  find-append (y ∷ xs) x = ground (arith, find-append xs x)

  pub find_passes : (xs : List A) (x : A) → find p xs ≡ some x → p x ≡ true
  find_passes [] x h = cc
  find_passes (y ∷ xs) x h = ground (arith, find_passes xs x)

  -- A search by another column sees the row that was updated.
  pub find-update_row :
      (key : A → ℕ) (k : ℕ) (f : A → A) (rows : List A)
      → ((a : A) → p (f a) ≡ p a)
      → find p (update_row key k f rows)
        ≡ Option.map (λ r. if key r == k then f r else r) (find p rows)
  unfolding update_row
  find-update_row key k f [] same = refl
  find-update_row key k f (r ∷ rows) same =
      ground (arith, same r, find-update_row key k f rows same)

  pub find-filter :
      (q : A → Bool) (rows : List A)
      → ((a : A) → p a ≡ true → q a ≡ true)
      → find p (filter q rows) ≡ find p rows
  find-filter q [] h = refl
  find-filter q (r ∷ rows) h = ground (arith, h r, find-filter q rows h)

  pub filtered_out : (rows : List A) → find p (filter (λ a. not (p a)) rows) ≡ none
  filtered_out [] = refl
  filtered_out (r ∷ rows) = ground (arith, filtered_out rows)

pub All-update_row :
    {A : Type 0} (P : A → Type 0) (key : A → ℕ) (k : ℕ) (f : A → A) (rows : List A)
    → ((a : A) → P a → P (f a))
    → All P rows
    → All P (update_row key k f rows)
unfolding update_row
All-update_row P key k f [] h all = tt
All-update_row P key k f (r ∷ rows) h all =
    ground (arith, h r all.0, All-update_row P key k f rows h all.1)
