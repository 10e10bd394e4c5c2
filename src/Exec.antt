-- ===== src/Exec.antt =====
-- Methods that change a state and may raise. What was written before a raise stays written, so
-- the state comes back beside the error too.
pub mod Steps
pub mod Returns
pub mod Post
pub mod Costs
use mathlib.Core.List.{List, [], ◌∷◌}

pub data Result {ℓ} (E A : Type ℓ) : Type ℓ where
  ok : A → Result E A
  err : E → Result E A

abbrev pub Exec {ℓ} : Type ℓ → Type ℓ → Type ℓ → Type ℓ
Exec E S A = S → Result E A × S

module _ {ℓ} {E S A : Type ℓ} where
  abbrev pub pure : A → Exec E S A
  pure a s = (ok a, s)

  abbrev pub raise : E → Exec E S A
  raise e s = (err e, s)

  abbrev pub lift : Result E A → Exec E S A
  lift r s = (r, s)

  abbrev pub gets : (S → A) → Exec E S A
  gets f s = (ok (f s), s)

abbrev pub modify : {E S : Type 0} → (S → S) → Exec E S Unit
modify f s = (ok tt, f s)

module _ {ℓ} {E S A B : Type ℓ} where
  abbrev pub continue : Result E A → (A → Exec E S B) → Exec E S B
  continue (ok a) f s = f a s
  continue (err e) f s = (err e, s)

  infixl 5 ◌>>=◌ ◌>>◌
  unfoldable pub ◌>>=◌ : Exec E S A → (A → Exec E S B) → Exec E S B
  ◌>>=◌ m f s = let (r, s') = m s in continue r f s'

  abbrev pub ◌>>◌ : Exec E S A → Exec E S B → Exec E S B
  m >> n = m >>= λ _. n

-- `try: body` / `except Exception as exc: handler`
module _ {E S A : Type 0} where
  abbrev pub handle : Result E A → (E → Exec E S A) → Exec E S A
  handle (ok a) handler s = (ok a, s)
  handle (err e) handler s = handler e s

  unfoldable pub try_except : Exec E S A → (E → Exec E S A) → Exec E S A
  try_except body handler s = let (r, s') = body s in handle r handler s'

-- `for x in xs: body(x)`
unfoldable pub for_each : {E S A : Type 0} → List A → (A → Exec E S Unit) → Exec E S Unit
unfolding ◌>>=◌
for_each [] body = pure tt
for_each (x ∷ xs) body = body x >> for_each xs body
