-- ===== src/Classification/Chunks/Sizes.antt =====
-- The chunks hold the items in order, and each is a request within the bounds.
use hll.Prelude.{
  ℕ, suc, ◌+◌, ◌≤◌, ◌≡◌, refl, sym, ap, ◌∙◌, subst, Bool, true, false, List, [], ◌∷◌, ◌++◌, arith,
  if◌then◌else◌, ltb, length, All, All-append, any, Bool-cases, inl, inr, length-append, ltb-false,
}
use mathlib.Core.List.{append_assoc, append-nil}
use hll.Exec.{Result, ok, err}
use hll.Classification.Model.{Error}
use hll.Classification.Chunks.{
  empty_batch_request_size_bytes, has_items, candidate_bytes, is_full, chunk_loop,
  chunk_submission_items,
}

module _ {A : Type 0} where
  abbrev pub concat : List (List A) → List A
  concat [] = []
  concat (c ∷ cs) = c ++ concat cs

  concat-append : (xs ys : List (List A)) → concat (xs ++ ys) ≡ concat xs ++ concat ys
  concat-append [] ys = refl
  concat-append (c ∷ xs) ys =
      rw (concat-append xs ys) (sym (append_assoc c (concat xs) (concat ys)))

  concat-closed : (xs : List (List A)) (c : List A) → concat (xs ++ c ∷ []) ≡ concat xs ++ c
  concat-closed xs c = concat-append xs (c ∷ []) ∙ ap (λ r. concat xs ++ r) (append-nil c)

module _ {A : Type 0} (item_bytes : A → ℕ) where
  -- The bytes of a JSON list, without its brackets: its items with commas between them.
  abbrev pub joined_bytes : List A → ℕ
  joined_bytes [] = 0
  joined_bytes (x ∷ xs) = item_bytes x + (if has_items xs then suc (joined_bytes xs) else 0)

  joined-append :
      (xs : List A) (x : A)
      → joined_bytes (xs ++ x ∷ [])
        ≡ joined_bytes xs + item_bytes x + (if has_items xs then 1 else 0)
  joined-append [] x = omega arith
  joined-append (y ∷ []) x = omega arith
  joined-append (y ∷ z ∷ xs) x = omega (arith, joined-append (z ∷ xs) x)

  module _ (max_item_count max_request_bytes : ℕ) where
    pub record Request (chunk : List A) : Type 0 where
      pub some_items : 1 ≤ length chunk
      pub few : length chunk ≤ max_item_count
      pub small : empty_batch_request_size_bytes + joined_bytes chunk ≤ max_request_bytes

    abbrev pub too_large : A → Bool
    too_large x = ltb max_request_bytes (empty_batch_request_size_bytes + item_bytes x)

    -- What the loop has between two items.
    record Current (current : List A) (bytes : ℕ) : Type 0 where
      pub count : length current ≤ max_item_count
      pub sum : bytes ≡ empty_batch_request_size_bytes + joined_bytes current
      pub fits : has_items current ≡ true → bytes ≤ max_request_bytes

    -- `chunks` hold `total` and keep the bounds, or an item is too large for a request of its own.
    abbrev pub Chunked : List A → List A → Result Error (List (List A)) → Type 0
    Chunked total items (ok chunks) =
        (concat chunks ≡ total) × All Request chunks × (any too_large items ≡ false)
    Chunked total items (err e) = any too_large items ≡ true

    Chunked-skip :
        (total rest : List A) (item : A) (items : List A) (r : Result Error (List (List A)))
        → too_large item ≡ false
        → rest ≡ total
        → Chunked rest items r
        → Chunked total (item ∷ items) r
    Chunked-skip total rest item items (ok chunks) small same (whole, all, none) =
        (whole ∙ same, all, rw small none)
    Chunked-skip total rest item items (err e) small same h = rw small h

    closed-Request :
        (current : List A) (bytes : ℕ) (x : A) → Current (x ∷ current) bytes → Request (x ∷ current)
    closed-Request current bytes x c = record {
      some_items = omega arith;
      few = c.count;
      small = subst (λ n. n ≤ max_request_bytes) c.sum (c.fits refl);
    }

    single-Current :
        (item : A)
        → 1 ≤ max_item_count
        → too_large item ≡ false
        → Current (item ∷ []) (empty_batch_request_size_bytes + item_bytes item)
    single-Current item one small = record {
      count = omega (arith, one);
      sum = omega arith;
      fits = λ _. ltb-false _ _ small;
    }

    grown-Current :
        (current : List A) (bytes : ℕ) (item : A)
        → 1 ≤ max_item_count
        → too_large item ≡ false
        → Current current bytes
        → is_full item_bytes max_item_count max_request_bytes current bytes item ≡ false
        → Current
            (current ++ item ∷ [])
            (candidate_bytes item_bytes max_item_count max_request_bytes current bytes item)
    grown-Current [] bytes item one small c full = record {
      count = omega (arith, one);
      sum = omega (arith, c.sum);
      fits = λ _. ground (arith, c.sum);
    }
    grown-Current (x ∷ current) bytes item one small c full = record {
      count = ground (arith, length-append (x ∷ current) (item ∷ []));
      sum = omega (arith, c.sum, joined-append (x ∷ current) item);
      fits = λ _. ground arith;
    }

    full-Request :
        (current : List A) (bytes : ℕ) (item : A)
        → Current current bytes
        → is_full item_bytes max_item_count max_request_bytes current bytes item ≡ true
        → Request current
    full-Request [] bytes item c full = cc
    full-Request (x ∷ current) bytes item c full = closed-Request current bytes x c

    loop-Chunked :
        (items : List A) (chunks : List (List A)) (current : List A) (bytes : ℕ)
        → 1 ≤ max_item_count
        → Current current bytes
        → All Request chunks
        → Chunked
            ((concat chunks ++ current) ++ items)
            items
            (chunk_loop item_bytes max_item_count max_request_bytes items chunks current bytes)
    unfolding chunk_loop
    loop-Chunked [] chunks [] bytes one c all =
        (sym (append-nil _ ∙ append-nil (concat chunks)), all, refl)
    loop-Chunked [] chunks (x ∷ current) bytes one c all = (
      concat-append chunks ((x ∷ current) ∷ [])
          ∙ ap (λ r. concat chunks ++ r) (append-nil (x ∷ current))
          ∙ sym (append-nil (concat chunks ++ x ∷ current)),
      All-append Request chunks ((x ∷ current) ∷ []) all (closed-Request current bytes x c, tt),
      refl,
    )
    loop-Chunked (item ∷ items) chunks current bytes one c all =
        elim (Bool-cases (too_large item)) [
          | inl large ↦ rw large (rw large refl)
          | inr small ↦
              rw small
                (elim (Bool-cases
                  (is_full item_bytes max_item_count max_request_bytes current bytes item)) [
                    | inl full ↦ rw full (
                        Chunked-skip ((concat chunks ++ current) ++ item ∷ items)
                          ((concat (chunks ++ current ∷ []) ++ item ∷ []) ++ items) item items _
                          small
                          (ap (λ r. (r ++ item ∷ []) ++ items) (concat-closed chunks current)
                            ∙ append_assoc (concat chunks ++ current) (item ∷ []) items)
                          (loop-Chunked items (chunks ++ current ∷ []) (item ∷ []) _ one
                            (single-Current item one small)
                            (All-append Request chunks (current ∷ []) all
                              (full-Request current bytes item c full, tt))))
                    | inr room ↦ rw room (
                        Chunked-skip ((concat chunks ++ current) ++ item ∷ items)
                          ((concat chunks ++ (current ++ item ∷ [])) ++ items) item items _ small
                          (ap (λ r. r ++ items)
                              (sym (append_assoc (concat chunks) current (item ∷ [])))
                            ∙ append_assoc (concat chunks ++ current) (item ∷ []) items)
                          (loop-Chunked items chunks (current ++ item ∷ []) _ one
                            (grown-Current current bytes item one small c room) all))
                  ])
        ]

    -- With room for one item in a request: either an item is too large for a request of its own, and
    -- chunking fails; or it returns chunks that hold all items in their order, none of them empty,
    -- each with at most `max_item_count` items and `max_request_bytes` bytes of JSON.
    pub chunk_submission_items-Chunked :
        (items : List A)
        → 1 ≤ max_item_count
        → Chunked items items
            (chunk_submission_items item_bytes max_item_count max_request_bytes items)
    unfolding chunk_submission_items
    chunk_submission_items-Chunked items one =
        loop-Chunked items [] [] empty_batch_request_size_bytes one
          (record { count = omega arith; sum = omega arith; fits = λ h. cc }) tt
