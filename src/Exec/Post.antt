-- ===== src/Exec/Post.antt =====
-- What holds of the value that a method returns, from any state, where it returns one.
use hll.Prelude.{Bool, true, false, if◌then◌else◌}
use hll.Exec.{Result, ok, err, Exec, continue, pure, raise, lift, gets, ◌>>=◌}

abbrev pub Ok : {E A : Type 0} → (A → Type 0) → Result E A → Type 0
Ok P (ok a) = P a
Ok P (err e) = Unit

pub record Post {S E A : Type 0} (P : A → Type 0) (m : Exec E S A) : Type 0 where
  pub at : (s : S) → Ok P (m s).0

module _ {E S : Type 0} where
  pub Post-pure : {A : Type 0} (P : A → Type 0) (a : A) → P a → Post {S = S} {E = E} P (pure a)
  Post-pure P a h = record { at = λ s. h }

  pub Post-raise : {A : Type 0} (P : A → Type 0) (e : E) → Post {S = S} P (raise e)
  Post-raise P e = record { at = λ s. tt }

  pub Post-lift : {A : Type 0} (P : A → Type 0) (r : Result E A) → Ok P r → Post {S = S} P (lift r)
  Post-lift P r h = record { at = λ s. h }

  pub Post-gets :
      {A : Type 0} (P : A → Type 0) (f : S → A)
      → ((s : S) → P (f s))
      → Post {S = S} {E = E} P (gets f)
  Post-gets P f h = record { at = λ s. h s }

  pub Post-any : {A : Type 0} (m : Exec E S A) → Post (λ _. Unit) m
  Post-any {A} m = record { at = λ s. go (m s).0 }
    where
      go : (r : Result E A) → Ok (λ _. Unit) r
      go (ok a) = tt
      go (err e) = tt

  pub Post-if :
      {A : Type 0} (P : A → Type 0) (b : Bool) (m n : Exec E S A)
      → Post P m
      → Post P n
      → Post P (if b then m else n)
  Post-if P true m n h k = h
  Post-if P false m n h k = k

  pub Post-bind :
      {A B : Type 0} (P : A → Type 0) (Q : B → Type 0) (m : Exec E S A) (f : A → Exec E S B)
      → Post P m
      → ((a : A) → P a → Post Q (f a))
      → Post Q (m >>= f)
  unfolding ◌>>=◌
  Post-bind {A} {B} P Q m f h k = record { at = λ s. go (m s) (h.at s) }
    where
      go : (r : Result E A × S) → Ok P r.0 → Ok Q (continue r.0 f r.1).0
      go (ok a, t) p = (k a p).at t
      go (err e, t) p = tt

  -- where nothing is known of the first value
  pub Post-after :
      {A B : Type 0} (Q : B → Type 0) (m : Exec E S A) (f : A → Exec E S B)
      → ((a : A) → Post Q (f a))
      → Post Q (m >>= f)
  Post-after Q m f k = Post-bind (λ _. Unit) Q m f (Post-any m) (λ a _. k a)

  pub Post-weaken :
      {A : Type 0} (P Q : A → Type 0) (m : Exec E S A) → ((a : A) → P a → Q a) → Post P m → Post Q m
  Post-weaken {A} P Q m f h = record { at = λ s. go (m s).0 (h.at s) }
    where
      go : (r : Result E A) → Ok P r → Ok Q r
      go (ok a) p = f a p
      go (err e) p = tt
