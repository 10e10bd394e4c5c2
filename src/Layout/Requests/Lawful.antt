-- ===== src/Layout/Requests/Lawful.antt =====
-- What the requests to compute a layout hold through any sequence of operations on them.
use hll.Prelude.{
  ℕ, ◌≡◌, refl, sym, ap, ◌∙◌, String, Bool, true, false, not, ◌&&◌, Option, none, some, List, [],
  ◌∷◌, ◌++◌, arith, Bool-cases, inl, inr, is_none, All, All-append, ◌==◌,
}
use hll.KnowledgeGraph.Model.{TaxonomyScopeIdentity}
use hll.Layout.Requests.{
  Status, pending, running, succeeded, failed, ComputeRequest, has_key, update_request,
  find_request, may_restart, restarted, new_request, restart_found, request_compute, claimed,
  claim_found, claim_compute, completed, complete_compute, failed_with, fail_compute,
}

-- What the columns of a row hold, by its status.
abbrev pub lawful : Status → ComputeRequest → Bool
lawful pending r =
    r.attempt_count == 0
    && is_none r.last_error
    && is_none r.claimed_at
    && is_none r.completed_at
    && is_none r.failed_at
lawful running r =
    not (is_none r.claimed_at)
    && is_none r.last_error
    && is_none r.completed_at
    && is_none r.failed_at
lawful succeeded r = not (is_none r.completed_at) && is_none r.last_error && is_none r.failed_at
lawful failed r = not (is_none r.failed_at) && not (is_none r.last_error)

abbrev pub IsLawful : ComputeRequest → Type 0
IsLawful r = lawful r.status r ≡ true

-- No row has the key of a later one.
abbrev pub Apart : List ComputeRequest → Type 0
Apart [] = Unit
Apart (r ∷ rows) =
    All (λ (x : ComputeRequest). has_key x.scope x.layout_version r ≡ false) rows × Apart rows

pub record IsQueue (rows : List ComputeRequest) : Type 0 where
  pub lawful : All IsLawful rows
  pub apart : Apart rows

record SameKey (a b : ComputeRequest) : Type 0 where
  pub scope : b.scope ≡ a.scope
  pub layout_version : b.layout_version ≡ a.layout_version

module _ (scope : TaxonomyScopeIdentity) (version : String)
    (f : ComputeRequest → ComputeRequest) where
  All-update_request :
      {P : ComputeRequest → Type 0} (rows : List ComputeRequest)
      → ((r : ComputeRequest) → P r → P (f r))
      → All P rows
      → All P (update_request scope version f rows)
  unfolding update_request
  All-update_request [] step h = tt
  All-update_request (r ∷ rows) step h = elim (Bool-cases (has_key scope version r)) [
    | inl e ↦ rw e (step r h.0, All-update_request rows step h.1)
    | inr e ↦ rw e (h.0, All-update_request rows step h.1)
  ]

  Apart-update_request :
      (rows : List ComputeRequest)
      → ((r : ComputeRequest) → SameKey r (f r))
      → Apart rows
      → Apart (update_request scope version f rows)
  unfolding update_request
  Apart-update_request [] keeps h = tt
  Apart-update_request (r ∷ rows) keeps h = elim (Bool-cases (has_key scope version r)) [
    | inl e ↦ rw e (
      All-update_request rows (λ x k. rw ((keeps x).scope, (keeps x).layout_version) k)
          (rw ((keeps r).scope, (keeps r).layout_version) h.0),
      Apart-update_request rows keeps h.1,
    )
    | inr e ↦ rw e (
      All-update_request rows (λ x k. rw ((keeps x).scope, (keeps x).layout_version) k) h.0,
      Apart-update_request rows keeps h.1,
    )
  ]

  IsQueue-update_request :
      (rows : List ComputeRequest)
      → ((r : ComputeRequest) → SameKey r (f r))
      → ((r : ComputeRequest) → IsLawful (f r))
      → IsQueue rows
      → IsQueue (update_request scope version f rows)
  IsQueue-update_request rows keeps obeys q = record {
    lawful = All-update_request rows (λ r _. obeys r) q.lawful;
    apart = Apart-update_request rows keeps q.apart;
  }

found_none : (r : ComputeRequest) → some r ≡ none → ⊥
found_none r h = cc h

Apart-append :
    (rows : List ComputeRequest) (n : ComputeRequest)
    → find_request n.scope n.layout_version rows ≡ none
    → Apart rows
    → Apart (rows ++ n ∷ [])
Apart-append [] n h k = ground arith
Apart-append (r ∷ rows) n h k = elim (Bool-cases (has_key n.scope n.layout_version r)) [
  | inl e ↦ absurd (found_none r (ap (λ found. found) (sym (rw e refl) ∙ h)))
  | inr e ↦
      let rest : find_request n.scope n.layout_version rows ≡ none = ground (arith, h, e) in
      (All-append _ rows (n ∷ []) k.0 (e, tt), Apart-append rows n rest k.1)
]

request_compute-IsQueue :
    (recovery : ℕ) (scope : TaxonomyScopeIdentity) (version fingerprint : String) (now : ℕ)
    (rows : List ComputeRequest)
    → IsQueue rows
    → IsQueue (request_compute recovery scope version fingerprint now rows).0
unfolding request_compute
request_compute-IsQueue recovery scope version fingerprint now rows q =
    go (find_request scope version rows) refl
  where
    go :
        (found : Option ComputeRequest)
        → find_request scope version rows ≡ found
        → IsQueue (restart_found recovery scope version fingerprint now rows found).0
    go none e = record {
      lawful =
          All-append _ rows (new_request scope version fingerprint now ∷ []) q.lawful (refl, tt);
      apart = Apart-append rows (new_request scope version fingerprint now) e q.apart;
    }
    go (some r) e = elim (Bool-cases (may_restart recovery now fingerprint r)) [
      | inl k ↦ rw k (
          IsQueue-update_request scope version (restarted now fingerprint) rows
            (λ _. record { scope = refl; layout_version = refl }) (λ _. refl) q)
      | inr k ↦ rw k q
    ]

claim_found-IsQueue :
    (now : ℕ) (rows : List ComputeRequest) (found : Option ComputeRequest)
    → IsQueue rows
    → IsQueue (claim_found now rows found).0
claim_found-IsQueue now rows none q = q
claim_found-IsQueue now rows (some r) q =
    IsQueue-update_request r.scope r.layout_version (claimed now) rows
      (λ _. record { scope = refl; layout_version = refl }) (λ _. refl) q

pub data Operation : Type 0 where
  request : TaxonomyScopeIdentity → String → String → ℕ → Operation
  claim : ℕ → Operation
  complete : TaxonomyScopeIdentity → String → ℕ → Operation
  fail : TaxonomyScopeIdentity → String → String → ℕ → Operation

abbrev pub operate : (String → String) → ℕ → Operation → List ComputeRequest → List ComputeRequest
operate clip recovery (request scope version fingerprint now) rows =
    (request_compute recovery scope version fingerprint now rows).0
operate clip recovery (claim now) rows = (claim_compute now rows).0
operate clip recovery (complete scope version now) rows = complete_compute scope version now rows
operate clip recovery (fail scope version message now) rows =
    fail_compute clip scope version message now rows

unfoldable pub operate_all :
    (String → String) → ℕ → List Operation → List ComputeRequest → List ComputeRequest
operate_all clip recovery [] rows = rows
operate_all clip recovery (o ∷ more) rows =
    operate_all clip recovery more (operate clip recovery o rows)

operate-IsQueue :
    (clip : String → String) (recovery : ℕ) (o : Operation) (rows : List ComputeRequest)
    → IsQueue rows
    → IsQueue (operate clip recovery o rows)
unfolding claim_compute complete_compute fail_compute
operate-IsQueue clip recovery (request scope version fingerprint now) rows q =
    request_compute-IsQueue recovery scope version fingerprint now rows q
operate-IsQueue clip recovery (claim now) rows q = claim_found-IsQueue now rows _ q
operate-IsQueue clip recovery (complete scope version now) rows q =
    IsQueue-update_request scope version (completed now) rows
      (λ _. record { scope = refl; layout_version = refl }) (λ _. refl) q
operate-IsQueue clip recovery (fail scope version message now) rows q =
    IsQueue-update_request scope version (failed_with now (clip message)) rows
      (λ _. record { scope = refl; layout_version = refl }) (λ _. refl) q

-- From rows of which at most one is for each scope and version, and whose columns fit their status, any
-- sequence of requests, claims, completions and failures leads to such rows.
pub operate_all-IsQueue :
    (clip : String → String) (recovery : ℕ) (operations : List Operation)
    (rows : List ComputeRequest)
    → IsQueue rows
    → IsQueue (operate_all clip recovery operations rows)
unfolding operate_all
operate_all-IsQueue clip recovery [] rows q = q
operate_all-IsQueue clip recovery (o ∷ more) rows q =
    operate_all-IsQueue clip recovery more _ (operate-IsQueue clip recovery o rows q)
