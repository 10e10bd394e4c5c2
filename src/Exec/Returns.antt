-- ===== src/Exec/Returns.antt =====
-- What a chain of methods that returned tells of its parts.
use hll.Prelude.{◌≡◌, refl, arith}
use hll.Exec.{Result, ok, err, Exec, lift, continue, ◌>>=◌}

module _ {E S : Type 0} where
  -- `m` returned `a` in the state `u`, and the rest `f a` went from there.
  pub record Returned {A B : Type 0} (m : Exec E S A) (f : A → Exec E S B) (s : S) (b : B) (t : S)
      : Type 0 where
    pub value : A
    pub state : S
    pub first : m s ≡ (ok value, state)
    pub second : f value state ≡ (ok b, t)

  pub bind-Returned :
      {A B : Type 0} (m : Exec E S A) (f : A → Exec E S B) (s : S) (b : B) (t : S)
      → (m >>= f) s ≡ (ok b, t)
      → Returned m f s b t
  unfolding ◌>>=◌
  bind-Returned {A} {B} m f s b t h = go (m s) refl h
    where
      go : (r : Result E A × S) → m s ≡ r → continue r.0 f r.1 ≡ (ok b, t) → Returned m f s b t
      go (ok a, u) e k = record { value = a; state = u; first = e; second = k }
      go (err x, u) e k = cc

  pub lift-returned :
      {A : Type 0} (r : Result E A) (s : S) (a : A) (t : S)
      → lift r s ≡ (ok a, t)
      → (r ≡ ok a) × (s ≡ t)
  lift-returned r s a t h = ground arith
