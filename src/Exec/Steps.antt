-- ===== src/Exec/Steps.antt =====
-- What a method does to the state, whether it returns or raises: a relation between the state
-- before and the state after, with one rule for each way to build a method.
use hll.Prelude.{◌≡◌, arith, Bool, true, false, if◌then◌else◌, List, [], ◌∷◌}
use hll.Exec.{
  Result, ok, err, Exec, continue, pure, raise, lift, gets, ◌>>=◌, handle, try_except, for_each,
}

pub record IsPreorder {S : Type 0} (R : S → S → Type 0) : Type 0 where
  pub reflexive : (s : S) → R s s
  pub transitive : (s t u : S) → R s t → R t u → R s u

pub record Steps {S E A : Type 0} (R : S → S → Type 0) (m : Exec E S A) : Type 0 where
  pub at : (s : S) → R s (m s).1

module _ {E S : Type 0} {R : S → S → Type 0} (order : IsPreorder R) where
  open order use {reflexive, transitive}

  pub Steps-pure : {A : Type 0} (a : A) → Steps R (pure {E = E} a)
  Steps-pure a = record { at = λ s. reflexive s }

  pub Steps-raise : {A : Type 0} (e : E) → Steps R (raise {A = A} e)
  Steps-raise e = record { at = λ s. reflexive s }

  pub Steps-lift : {A : Type 0} (r : Result E A) → Steps R (lift r)
  Steps-lift r = record { at = λ s. reflexive s }

  pub Steps-gets : {A : Type 0} (f : S → A) → Steps R (gets {E = E} f)
  Steps-gets f = record { at = λ s. reflexive s }

  pub Steps-if :
      {A : Type 0} (b : Bool) (m n : Exec E S A)
      → Steps R m
      → Steps R n
      → Steps R (if b then m else n)
  Steps-if true m n h k = h
  Steps-if false m n h k = k

  continue_step :
      {A B : Type 0} (s : S) (r : Result E A × S) (f : A → Exec E S B)
      → R s r.1
      → ((a : A) → Steps R (f a))
      → R s ((lift r.0 >>= f) r.1).1
  unfolding ◌>>=◌
  continue_step s (ok a, t) f h k = transitive s t _ h ((k a).at t)
  continue_step s (err e, t) f h k = h

  pub Steps-bind :
      {A B : Type 0} (m : Exec E S A) (f : A → Exec E S B)
      → Steps R m
      → ((a : A) → Steps R (f a))
      → Steps R (m >>= f)
  unfolding ◌>>=◌
  Steps-bind m f h k = record { at = λ s. continue_step s (m s) f (h.at s) k }

  handle_step :
      {A : Type 0} (s : S) (r : Result E A × S) (handler : E → Exec E S A)
      → R s r.1
      → ((e : E) → Steps R (handler e))
      → R s (handle r.0 handler r.1).1
  handle_step s (ok a, t) handler h k = h
  handle_step s (err e, t) handler h k = transitive s t _ h ((k e).at t)

  pub Steps-try_except :
      {A : Type 0} (body : Exec E S A) (handler : E → Exec E S A)
      → Steps R body
      → ((e : E) → Steps R (handler e))
      → Steps R (try_except body handler)
  unfolding try_except
  Steps-try_except body handler h k = record { at = λ s. handle_step s (body s) handler (h.at s) k }

  pub Steps-for_each :
      {A : Type 0} (xs : List A) (body : A → Exec E S Unit)
      → ((x : A) → Steps R (body x))
      → Steps R (for_each xs body)
  unfolding for_each
  Steps-for_each [] body h = Steps-pure tt
  Steps-for_each (x ∷ xs) body h = Steps-bind (body x) _ (h x) (λ _. Steps-for_each xs body h)

  -- from one state
  pub bind_at :
      {A B : Type 0} (m : Exec E S A) (f : A → Exec E S B) (s : S)
      → R s (m s).1
      → ((a : A) → Steps R (f a))
      → R s ((m >>= f) s).1
  unfolding ◌>>=◌
  bind_at m f s h k = continue_step s (m s) f h k

pub ruleset steps_rules =
    (Steps-pure, Steps-raise, Steps-lift, Steps-gets, Steps-if, Steps-bind, Steps-for_each)

-- A method that returned is followed by the rest.
pub after_ok :
    {E S A B : Type 0} (m : Exec E S A) (n : A → Exec E S B) (s : S) (a : A)
    → (m s).0 ≡ ok a
    → (m >>= n) s ≡ n a (m s).1
unfolding ◌>>=◌
after_ok {E} {S} {A} m n s a h = go (m s) h
  where
    go : (r : Result E A × S) → r.0 ≡ ok a → continue r.0 n r.1 ≡ n a r.1
    go (ok b, t) e = ground arith
    go (err x, t) e = cc
