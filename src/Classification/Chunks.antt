-- ===== src/Classification/Chunks.antt =====
-- `_chunk_submission_items` of submission.py: requests of at most so many items and bytes.
pub mod Sizes
use hll.Prelude.{
  ℕ, ◌+◌, Bool, true, false, not, ◌&&◌, ◌||◌, List, [], ◌∷◌, ◌++◌, if◌then◌else◌, ltb, leb, length,
}
use hll.Exec.{Result, ok, err}
use hll.Classification.Model.{Error, value_error}

-- The bytes of `{"jobs":[` and `]}`.
abbrev pub empty_batch_request_size_bytes : ℕ
empty_batch_request_size_bytes = 11

abbrev pub max_job_queue_batch_size : ℕ
max_job_queue_batch_size = 1000

abbrev pub max_job_queue_batch_request_bytes : ℕ
max_job_queue_batch_request_bytes = 921600

module _ {A : Type 0} where
  -- `if current:`
  abbrev pub has_items : List A → Bool
  has_items [] = false
  has_items (x ∷ xs) = true

  abbrev pub close_chunk : List (List A) → List A → List (List A)
  close_chunk chunks [] = chunks
  close_chunk chunks (x ∷ xs) = chunks ++ (x ∷ xs) ∷ []

  module _ (item_bytes : A → ℕ) (max_item_count max_request_bytes : ℕ) where
    -- the request with the item added, with a comma where it is not the first
    abbrev pub candidate_bytes : List A → ℕ → A → ℕ
    candidate_bytes current bytes item =
        bytes + item_bytes item + (if has_items current then 1 else 0)

    abbrev pub is_full : List A → ℕ → A → Bool
    is_full current bytes item =
        has_items current
        && (leb max_item_count (length current)
            || ltb max_request_bytes (candidate_bytes current bytes item))

    unfoldable pub chunk_loop : List A → List (List A) → List A → ℕ → Result Error (List (List A))
    chunk_loop [] chunks current bytes = ok (close_chunk chunks current)
    chunk_loop (item ∷ items) chunks current bytes =
        let next =
          chunk_loop items (chunks ++ current ∷ []) (item ∷ [])
            (empty_batch_request_size_bytes + item_bytes item) in
        let grown =
          chunk_loop items chunks (current ++ item ∷ []) (candidate_bytes current bytes item) in
        if ltb max_request_bytes (empty_batch_request_size_bytes + item_bytes item)
        then err (value_error "single request is too large")
        else (if is_full current bytes item then next else grown)

    unfoldable pub chunk_submission_items : List A → Result Error (List (List A))
    unfolding chunk_loop
    chunk_submission_items items = chunk_loop items [] [] empty_batch_request_size_bytes
