-- ===== src/KnowledgeGraph/Proposals/Atomic.antt =====
-- A method of KnowledgeGraphService commits what it did or leaves everything as it was.
use hll.Prelude.{◌≡◌, refl, sym, ap, subst}
use hll.Exec.{Result, ok, err, ◌>>=◌, try_except}
use hll.KnowledgeGraph.Model.{Error, Tables, State, Action, commit, rollback, transact}

module _ {Real Taxonomy : Type 0} where
  -- nothing uncommitted
  abbrev pub Clean : State Real Taxonomy → Type 0
  Clean s = s.committed ≡ s.tables

  -- On a return all is committed; on a raise the state is the one before.
  abbrev pub Settled :
      {A : Type 0} → State Real Taxonomy → Result Error A × State Real Taxonomy → Type 0
  Settled s (ok a, t) = Clean t
  Settled s (err e, t) = t ≡ s

  restored :
      (s t : State Real Taxonomy)
      → Clean s
      → t.committed ≡ s.committed
      → record t { tables = t.committed } ≡ s
  restored s t clean frame = cc

  pub transact-Settled :
      {A : Type 0} (body : Action Real Taxonomy A) (s : State Real Taxonomy)
      → Clean s
      → (body s).1.committed ≡ s.committed
      → Settled s (transact body s)
  unfolding transact commit rollback try_except ◌>>=◌
  transact-Settled {A} body s clean frame = go (body s) refl
    where
      go : (r : Result Error A × State Real Taxonomy) → body s ≡ r → Settled s (transact body s)
      go (ok a, t) e = rw e refl
      go (err x, t) e = rw e (restored s t clean (subst (λ r. r.1.committed ≡ s.committed) e frame))

  -- Every relation that holds of equal tables and of a body that returned holds of the method.
  pub transact_tables :
      {A : Type 0} (R : Tables Real Taxonomy → Tables Real Taxonomy → Type 0)
      (body : Action Real Taxonomy A) (s : State Real Taxonomy)
      → Clean s
      → (body s).1.committed ≡ s.committed
      → R s.tables s.tables
      → ((a : A) (t : State Real Taxonomy) → body s ≡ (ok a, t) → R s.tables t.tables)
      → R s.tables (transact body s).1.tables
  unfolding transact commit rollback try_except ◌>>=◌
  transact_tables {A} R body s clean frame same h = go (body s) refl
    where
      go :
          (r : Result Error A × State Real Taxonomy)
          → body s ≡ r
          → R s.tables (transact body s).1.tables
      go (ok a, t) e = rw e (h a t e)
      go (err x, t) e = rw e (
          subst (R s.tables)
            (sym (
              ap (λ u. u.tables)
                (restored s t clean (subst (λ r. r.1.committed ≡ s.committed) e frame))))
            same)
