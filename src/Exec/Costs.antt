-- ===== src/Exec/Costs.antt =====
-- How many steps of a kind a method takes, against what it counts in the value that it returns.
use hll.Prelude.{ℕ, ◌+◌, ◌≤◌, arith, Bool, true, false, if◌then◌else◌}
use hll.Exec.{Result, ok, err, Exec, continue, pure, raise, ◌>>=◌}
use hll.Exec.Post.{Ok}

-- `R n s t`: the state goes from `s` to `t` with `n` steps at most.
pub record Graded {S : Type 0} (R : ℕ → S → S → Type 0) : Type 0 where
  pub none : (s : S) → R 0 s s
  pub more : (m n : ℕ) (s t u : S) → R m s t → R n t u → R (m + n) s u

pub record Cost {S : Type 0} (R : ℕ → S → S → Type 0) (base counted : ℕ) (s t : S) : Type 0 where
  pub steps : ℕ
  pub within : base + steps ≤ counted
  pub taken : R steps s t

-- Where the method returns, its steps and `base` are at most what its value counts.
pub record Costs {S E A : Type 0} (R : ℕ → S → S → Type 0) (base : ℕ) (count : A → ℕ)
    (m : Exec E S A) : Type 0 where
  pub at : (s : S) → Ok (λ a. Cost R base (count a) s (m s).1) (m s).0

module _ {E S : Type 0} {R : ℕ → S → S → Type 0} (graded : Graded R) where
  pub Costs-pure :
      {A : Type 0} (base : ℕ) (count : A → ℕ) (a : A)
      → base ≤ count a
      → Costs {E = E} R base count (pure a)
  Costs-pure base count a h = record {
    at = λ s. record { steps = 0; within = omega (arith, h); taken = graded.none s };
  }

  pub Costs-raise : {A : Type 0} (base : ℕ) (count : A → ℕ) (e : E) → Costs R base count (raise e)
  Costs-raise base count e = record { at = λ s. tt }

  pub Costs-bind :
      {A B : Type 0} (base : ℕ) (first : A → ℕ) (count : B → ℕ) (m : Exec E S A)
      (f : A → Exec E S B)
      → Costs R base first m
      → ((a : A) → Costs R (first a) count (f a))
      → Costs R base count (m >>= f)
  unfolding ◌>>=◌
  Costs-bind {A} {B} base first count m f h k = record { at = λ s. go s (m s) (h.at s) }
    where
      finish :
          (s t : S) (a : A) (r : Result E B × S)
          → Cost R base (first a) s t
          → Ok (λ b. Cost R (first a) (count b) t r.1) r.0
          → Ok (λ b. Cost R base (count b) s r.1) r.0
      finish s t a (ok b, u) p q = record {
        steps = p.steps + q.steps;
        within = omega (arith, p.within, q.within);
        taken = graded.more p.steps q.steps s t u p.taken q.taken;
      }
      finish s t a (err e, u) p q = tt

      go :
          (s : S) (r : Result E A × S)
          → Ok (λ a. Cost R base (first a) s r.1) r.0
          → Ok (λ b. Cost R base (count b) s (continue r.0 f r.1).1) (continue r.0 f r.1).0
      go s (ok a, t) p = finish s t a (f a t) p ((k a).at t)
      go s (err e, t) p = tt

  -- A first part that counts nothing
  pub Costs-after :
      {A B : Type 0} (base : ℕ) (count : B → ℕ) (m : Exec E S A) (f : A → Exec E S B)
      → ((s : S) → R 0 s (m s).1)
      → ((a : A) → Costs R base count (f a))
      → Costs R base count (m >>= f)
  Costs-after {A} base count m f h k =
      Costs-bind base (λ _. base) count m f (record { at = λ s. go s (m s).0 (m s).1 (h s) }) k
    where
      go : (s : S) (r : Result E A) (t : S) → R 0 s t → Ok (λ _. Cost R base base s t) r
      go s (ok a) t p = record { steps = 0; within = omega arith; taken = p }
      go s (err e) t p = tt

  pub Costs-if :
      {A : Type 0} (base : ℕ) (count : A → ℕ) (b : Bool) (m n : Exec E S A)
      → Costs R base count m
      → Costs R base count n
      → Costs R base count (if b then m else n)
  Costs-if base count true m n h k = h
  Costs-if base count false m n h k = k

  -- The same steps, above a larger base
  pub Costs-shift :
      {A : Type 0} (k : ℕ) (count : A → ℕ) (m : Exec E S A)
      → Costs R 0 count m
      → Costs R k (λ a. k + count a) m
  Costs-shift {A} k count m h = record { at = λ s. go s (m s).0 (m s).1 (h.at s) }
    where
      go :
          (s : S) (r : Result E A) (t : S)
          → Ok (λ a. Cost R 0 (count a) s t) r
          → Ok (λ a. Cost R k (k + count a) s t) r
      go s (ok a) t c = record {
        steps = c.steps;
        within = omega (arith, c.within);
        taken = c.taken;
      }
      go s (err e) t c = tt
