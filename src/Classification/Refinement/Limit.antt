-- ===== src/Classification/Refinement/Limit.antt =====
-- The limit of a submission: how many jobs it counts at most. Spending has the rows that it links.
use hll.Prelude.{
  ℕ, ◌+◌, ◌≤◌, suc, String, ◌≡◌, refl, sym, subst, length-append, false, ◌||◌, Option, none, some,
  List, [], ◌∷◌, ◌++◌, arith, Bool-cases, inl, inr, length, length-take, ◌==◌,
}
use hll.Exec.{lift, gets}
use hll.Exec.Post.{
  Post, Post-pure, Post-raise, Post-gets, Post-after, Post-bind, Post-if, Post-weaken,
}
use hll.Classification.Model.{value_error, Card, Services, commit}
use hll.Classification.Scopes.{ResolvedScope, Selection, resolve_scopes}
use hll.Classification.Submission.{
  SubmissionCounts, no_counts, add_counts, total_count, remaining_limit, is_zero, limited,
  ScopeSubmissionPreflight, jobs_to_link_count, list_pending_local_jobs,
  list_cards_without_active_job, add_job, add_jobs, create_pending_jobs, submit_pending_jobs,
  load_submission_preflight,
}
use hll.Classification.Refinement.{
  SubmissionResult, Totals, no_totals, no_children, bad_batch_size, skip_scope, count_scope,
  skipped_summary, scope_summary, submit_new_jobs, submit_resolved_scope_jobs, submit_scope,
  submit_scopes, result_of, submit_refinement_jobs,
}
use hll.Classification.Refinement.Links.{Total, Total-submit_pending_jobs}

-- `n` is within the limit where there is one.
abbrev pub Within : Option ℕ → ℕ → Type 0
Within none n = Unit
Within (some limit) n = n ≤ limit

Within-limited :
    {A : Type 0} (limit : Option ℕ) (rows : List A) → Within limit (length (limited limit rows))
Within-limited none rows = tt
Within-limited (some n) rows = omega (arith, length-take n rows)

Within-remaining :
    (limit : Option ℕ) (used n : ℕ)
    → Within limit used
    → Within (remaining_limit limit used) n
    → Within limit (used + n)
Within-remaining none used n h k = tt
Within-remaining (some limit) used n h k = omega (arith, h, k)

Within-zero : (limit : Option ℕ) → Within limit 0
Within-zero none = tt
Within-zero (some limit) = omega arith

length-add_jobs :
    (scope_id : ℕ) (cards : List Card) (now : ℕ)
    → Post (λ jobs. length jobs ≡ length cards) (add_jobs scope_id cards now)
unfolding add_jobs
length-add_jobs scope_id [] now = Post-pure (λ jobs. length jobs ≡ 0) [] refl
length-add_jobs scope_id (card ∷ cards) now =
    Post-after (λ jobs. length jobs ≡ length (card ∷ cards)) (add_job scope_id card.id now) _
      (λ id.
        Post-bind (λ jobs. length jobs ≡ length cards) (λ jobs. length jobs ≡ length (card ∷ cards))
          (add_jobs scope_id cards now) _ (length-add_jobs scope_id cards now)
          (λ rest h.
            Post-pure (λ jobs. length jobs ≡ length (card ∷ cards)) ((id, card) ∷ rest)
              (omega (arith, h))))

length-create_pending_jobs :
    (scope : ResolvedScope) (cards : List Card) (now : ℕ)
    → Post (λ jobs. length jobs ≡ length cards) (create_pending_jobs scope cards now)
unfolding create_pending_jobs
length-create_pending_jobs scope [] now = Post-pure (λ jobs. length jobs ≡ 0) [] refl
length-create_pending_jobs scope (card ∷ cards) now =
    Post-bind (λ jobs. length jobs ≡ length (card ∷ cards))
      (λ jobs. length jobs ≡ length (card ∷ cards))
      (add_jobs scope.scope_node.id (card ∷ cards) now) _
      (length-add_jobs scope.scope_node.id (card ∷ cards) now)
      (λ jobs h.
        Post-after (λ jobs. length jobs ≡ length (card ∷ cards)) commit _
          (λ _. Post-pure (λ jobs. length jobs ≡ length (card ∷ cards)) jobs h))

abbrev pub sum_of {ℓ} : {A : Type ℓ} → (A → ℕ) → List A → ℕ
sum_of f [] = 0
sum_of f (x ∷ xs) = f x + sum_of f xs

sum_of-snoc :
    {A : Type 0} (f : A → ℕ) (xs : List A) (x : A) → sum_of f (xs ++ x ∷ []) ≡ sum_of f xs + f x
sum_of-snoc f [] x = omega arith
sum_of-snoc f (y ∷ xs) x = omega (arith, sum_of-snoc f xs x)

-- What the loop has counted when `left` of `selected` scopes are left.
record Counted (limit : Option ℕ) (selected left : ℕ) (t : Totals) : Type 0 where
  pub within : Within limit t.linked
  pub sum : t.submitted + t.reused_idempotent ≡ t.linked
  pub summaries : length t.summaries + left ≡ selected
  pub submitted : sum_of (λ x. x.submitted_count) t.summaries ≡ t.submitted
  pub reused : sum_of (λ x. x.reused_idempotent_count) t.summaries ≡ t.reused_idempotent
  pub already_linked : sum_of (λ x. x.already_linked_count) t.summaries ≡ t.already_linked

-- The result keeps the limit, has a summary for each selected scope, and its counts are the sums of theirs.
pub record InLimit (limit : Option ℕ) (r : SubmissionResult) : Type 0 where
  pub linked : Within limit (r.submitted_count + r.reused_idempotent_count)
  pub summaries : length r.scopes ≡ r.selected_scope_count
  pub submitted : sum_of (λ x. x.submitted_count) r.scopes ≡ r.submitted_count
  pub reused : sum_of (λ x. x.reused_idempotent_count) r.scopes ≡ r.reused_idempotent_count
  pub already_linked : sum_of (λ x. x.already_linked_count) r.scopes ≡ r.already_linked_count

abbrev pub WithinCount : Option ℕ → SubmissionCounts → Type 0
WithinCount limit c = Within limit (total_count c)

WithinCount-add :
    (limit : Option ℕ) (a b : SubmissionCounts)
    → WithinCount limit a
    → WithinCount (remaining_limit limit (total_count a)) b
    → WithinCount limit (add_counts a b)
WithinCount-add none a b h k = tt
WithinCount-add (some limit) a b h k = omega (arith, h, k)

Counted-skip_scope :
    (limit : Option ℕ) (selected n : ℕ) (scope : ResolvedScope)
    (preflight : ScopeSubmissionPreflight) (t : Totals)
    → Counted limit selected (suc n) t
    → Counted limit selected n (skip_scope scope preflight t)
Counted-skip_scope limit selected n scope preflight t h = record {
  within = h.within;
  sum = h.sum;
  summaries =
      omega
        (arith, h.summaries, length-append t.summaries ((skipped_summary scope preflight) ∷ []));
  submitted = omega (
    arith,
    h.submitted,
    sum_of-snoc (λ x. x.submitted_count) t.summaries (skipped_summary scope preflight),
  );
  reused = omega (
    arith,
    h.reused,
    sum_of-snoc (λ x. x.reused_idempotent_count) t.summaries (skipped_summary scope preflight),
  );
  already_linked = omega (
    arith,
    h.already_linked,
    sum_of-snoc (λ x. x.already_linked_count) t.summaries (skipped_summary scope preflight),
  );
}

Counted-count_scope :
    (limit : Option ℕ) (selected n : ℕ) (scope : ResolvedScope)
    (preflight : ScopeSubmissionPreflight) (counts : SubmissionCounts) (t : Totals)
    → Counted limit selected (suc n) t
    → WithinCount (remaining_limit limit t.linked) counts
    → Counted limit selected n (count_scope scope preflight counts t)
Counted-count_scope limit selected n scope preflight counts t h few = record {
  within = Within-remaining limit t.linked (total_count counts) h.within few;
  sum = omega (arith, h.sum);
  summaries =
      omega (
        arith,
        h.summaries,
        length-append t.summaries ((scope_summary scope preflight counts) ∷ []),
      );
  submitted = omega (
    arith,
    h.submitted,
    sum_of-snoc (λ x. x.submitted_count) t.summaries (scope_summary scope preflight counts),
  );
  reused = omega (
    arith,
    h.reused,
    sum_of-snoc (λ x. x.reused_idempotent_count) t.summaries (scope_summary scope preflight counts),
  );
  already_linked = omega (
    arith,
    h.already_linked,
    sum_of-snoc (λ x. x.already_linked_count) t.summaries (scope_summary scope preflight counts),
  );
}

Counted-no_totals : (limit : Option ℕ) (n : ℕ) → Counted limit n n no_totals
Counted-no_totals limit n = record {
  within = Within-zero limit;
  sum = omega arith;
  summaries = omega arith;
  submitted = refl;
  reused = refl;
  already_linked = refl;
}

InLimit-result_of :
    (svc : Services) (queue_name : String) (now : ℕ) (limit : Option ℕ) (n : ℕ) (t : Totals)
    → Counted limit n 0 t
    → InLimit limit (result_of svc queue_name now n t)
InLimit-result_of svc queue_name now limit n t h = record {
  linked = subst (Within limit) (sym h.sum) h.within;
  summaries = omega (arith, h.summaries);
  submitted = h.submitted;
  reused = h.reused;
  already_linked = h.already_linked;
}

batch_size_one : (n : ℕ) → bad_batch_size n ≡ false → 1 ≤ n
batch_size_one n h = ground arith

module _ (svc : Services) (queue_name : String) (now batch_size : ℕ) (one : 1 ≤ batch_size) where
  WithinCount-submit_pending_jobs :
      (scope : ResolvedScope) (limit : Option ℕ) (jobs : List (ℕ × Card))
      → Within limit (length jobs)
      → Post (WithinCount limit) (submit_pending_jobs svc queue_name scope jobs batch_size)
  WithinCount-submit_pending_jobs scope limit jobs h =
      Post-weaken (Total (length jobs)) (WithinCount limit)
        (submit_pending_jobs svc queue_name scope jobs batch_size)
        (λ c t. subst (Within limit) (sym t) h)
        (Total-submit_pending_jobs svc queue_name scope jobs batch_size one)

  WithinCount-submit_new_jobs :
      (scope : ResolvedScope) (limit : Option ℕ) (counts : SubmissionCounts)
      → WithinCount limit counts
      → Post (WithinCount limit) (
          submit_new_jobs svc queue_name now scope
            (remaining_limit limit (total_count counts))
            batch_size
            counts)
  unfolding submit_new_jobs list_cards_without_active_job
  WithinCount-submit_new_jobs scope limit counts h =
      let remaining = remaining_limit limit (total_count counts) in
      Post-if (WithinCount limit) (is_zero remaining) _ _ (Post-pure (WithinCount limit) counts h) (
        Post-bind (λ cards. Within remaining (length cards)) (WithinCount limit)
          (gets (list_cards_without_active_job scope.scope_node.id remaining)) _
          (Post-gets (λ cards. Within remaining (length cards)) _ (λ s. Within-limited remaining _))
          (λ cards few.
            Post-bind (λ jobs. length jobs ≡ length cards) (WithinCount limit)
              (create_pending_jobs scope cards now) _ (length-create_pending_jobs scope cards now)
              (λ jobs same.
                Post-bind (WithinCount remaining) (WithinCount limit)
                  (submit_pending_jobs svc queue_name scope jobs batch_size) _
                  (WithinCount-submit_pending_jobs scope remaining jobs
                    (subst (Within remaining) (sym same) few))
                  (λ created k.
                    Post-pure (WithinCount limit) (add_counts counts created)
                      (WithinCount-add limit counts created h k)))))

  WithinCount-submit_resolved_scope_jobs :
      (scope : ResolvedScope) (limit : Option ℕ)
      → Post
          (WithinCount limit)
          (submit_resolved_scope_jobs svc queue_name now scope limit batch_size)
  unfolding submit_resolved_scope_jobs list_pending_local_jobs
  WithinCount-submit_resolved_scope_jobs scope limit =
      Post-if (WithinCount limit) (is_zero limit) _ _
        (Post-pure (WithinCount limit) no_counts (Within-zero limit))
        (Post-bind (λ jobs. Within limit (length jobs)) (WithinCount limit)
          (gets (list_pending_local_jobs scope.scope_node.id limit)) _
          (Post-gets (λ jobs. Within limit (length jobs)) _ (λ s. Within-limited limit _))
          (λ jobs few.
            Post-bind (WithinCount limit) (WithinCount limit)
              (submit_pending_jobs svc queue_name scope jobs batch_size) _
              (WithinCount-submit_pending_jobs scope limit jobs few)
              (λ counts h. WithinCount-submit_new_jobs scope limit counts h)))

  WithinCount-submit_scope :
      (scope : ResolvedScope) (preflight : ScopeSubmissionPreflight) (limit : Option ℕ)
      → Post (WithinCount limit) (submit_scope svc queue_name now scope preflight limit batch_size)
  unfolding submit_scope
  WithinCount-submit_scope scope preflight limit =
      Post-if (WithinCount limit) (is_zero limit || jobs_to_link_count preflight == 0) _ _
        (Post-pure (WithinCount limit) no_counts (Within-zero limit))
        (WithinCount-submit_resolved_scope_jobs scope limit)

  Counted-submit_scopes :
      (preflights : ℕ → ScopeSubmissionPreflight) (limit : Option ℕ) (selected : ℕ)
      (scopes : List ResolvedScope) (t : Totals)
      → Counted limit selected (length scopes) t
      → Post
          (Counted limit selected 0)
          (submit_scopes svc queue_name now preflights limit batch_size scopes t)
  unfolding submit_scopes
  Counted-submit_scopes preflights limit selected [] t h = Post-pure (Counted limit selected 0) t h
  Counted-submit_scopes preflights limit selected (scope ∷ scopes) t h =
      let preflight = preflights scope.scope_node.id in
      Post-if (Counted limit selected 0) (no_children scope) _ _
        (Counted-submit_scopes preflights limit selected scopes (skip_scope scope preflight t)
          (Counted-skip_scope limit selected (length scopes) scope preflight t h))
        (Post-bind (WithinCount (remaining_limit limit t.linked)) (Counted limit selected 0)
          (submit_scope svc queue_name now scope preflight (remaining_limit limit t.linked)
            batch_size)
          _ (WithinCount-submit_scope scope preflight (remaining_limit limit t.linked))
          (λ counts few.
            Counted-submit_scopes preflights limit selected scopes
              (count_scope scope preflight counts t)
              (Counted-count_scope limit selected (length scopes) scope preflight counts t h few)))

module _ (svc : Services) (queue_name : String) (now : ℕ) where
  -- The counts of a submission that returns are within its limit and add up.
  pub submit_refinement_jobs-InLimit :
      (selection : Selection) (limit : Option ℕ) (batch_size : ℕ)
      → Post (InLimit limit) (submit_refinement_jobs svc queue_name now selection limit batch_size)
  unfolding submit_refinement_jobs
  submit_refinement_jobs-InLimit selection limit batch_size =
      elim (Bool-cases (bad_batch_size batch_size)) [
        | inl bad ↦ rw bad (Post-raise (InLimit limit) (value_error "batch_size"))
        | inr good ↦ rw good (
            Post-after (InLimit limit) (gets (λ s. resolve_scopes svc s.taxonomy_nodes selection)) _
              (λ resolved. Post-after (InLimit limit) (lift resolved) _ (λ scopes.
                Post-after (InLimit limit) (gets (λ s id. load_submission_preflight id s)) _
                  (λ preflights.
                    Post-bind (Counted limit (length scopes) 0) (InLimit limit)
                      (submit_scopes svc queue_name now preflights limit batch_size scopes
                        no_totals)
                      _
                      (Counted-submit_scopes svc queue_name now batch_size
                        (batch_size_one batch_size good) preflights limit (length scopes) scopes
                        no_totals (Counted-no_totals limit (length scopes)))
                      (λ t h.
                        Post-pure (InLimit limit) (result_of svc queue_name now (length scopes) t)
                          (InLimit-result_of svc queue_name now limit (length scopes) t h))))))
      ]
