-- ===== src/Device/Returns.antt =====
-- Statements that a piece of code returns, with what value and from which logs to which.
use entservices_devicesettin.Prelude.{
  ◌≡◌, refl, Bool, true, false, Option, none, some, ◌∷◌, if◌then◌else◌,
}
use entservices_devicesettin.Device.{Call, Calls, M, ◌>>=◌, ask, tell, pure}

-- The code does not abort, and it ends in P.
abbrev pub Returns : {A : Type 0} → (A → Calls → Type 0) → Option (A × Calls) → Type 0
Returns P none = ⊥
Returns P (some (a, log)) = P a log

-- Started on a log that satisfies I, the code returns a value in Q and leaves a log in J.
pub record Yields {A : Type 0} (I J : Calls → Type 0) (Q : A → Type 0) (m : M A) : Type 0 where
  pub at : (log : Calls) → I log → Returns (λ a log'. Q a × J log') (m log)

module _ {A B : Type 0} {J K : Calls → Type 0} {Q : A → Type 0} {R : B → Type 0} where
  then-Returns :
      (o : Option (A × Calls)) (f : A → M B)
      → Returns (λ a log. Q a × J log) o
      → ((a : A) → Q a → Yields J K R (f a))
      → Returns (λ b log. R b × K log) (elim o [ none ↦ none | some (a, log) ↦ f a log ])
  then-Returns none f h k = absurd h
  then-Returns (some (a, log)) f h k = (k a h.0).at log h.1

  pub Yields-bind :
      {I : Calls → Type 0} {m : M A} {f : A → M B}
      → Yields I J Q m
      → ((a : A) → Q a → Yields J K R (f a))
      → Yields I K R (m >>= f)
  unfolding ◌>>=◌
  Yields-bind {m} {f} h k = record { at = λ log i. then-Returns (m log) f (h.at log i) k }

module _ {A : Type 0} {I J : Calls → Type 0} {Q : A → Type 0} where
  pub Yields-if :
      (b : Bool) {m n : M A}
      → (b ≡ true → Yields I J Q m)
      → (b ≡ false → Yields I J Q n)
      → Yields I J Q (if b then m else n)
  Yields-if true h k = h refl
  Yields-if false h k = k refl

  pub Yields-ask :
      (reply : Calls → A) (call : Call)
      → ((log : Calls) → I log → Q (reply log) × J (call ∷ log))
      → Yields I J Q (ask reply call)
  unfolding ask
  Yields-ask reply call h = record { at = h }

module _ {A : Type 0} {I : Calls → Type 0} {Q : A → Type 0} where
  pub Yields-pure : (a : A) → Q a → Yields I I Q (pure a)
  unfolding pure
  Yields-pure a q = record { at = λ log i. (q, i) }

module _ {I J : Calls → Type 0} {Q : Unit {0} → Type 0} where
  pub Yields-tell :
      (call : Call) → Q tt → ((log : Calls) → I log → J (call ∷ log)) → Yields I J Q (tell call)
  unfolding tell
  Yields-tell call q h = record { at = λ log i. (q, h log i) }

pub Returns-mono :
    {A : Type 0} {P Q : A → Calls → Type 0} (o : Option (A × Calls))
    → Returns P o
    → ((a : A) (log : Calls) → P a log → Q a log)
    → Returns Q o
Returns-mono none h k = h
Returns-mono (some (a, log)) h k = k a log h

pub Yields-mono :
    {A : Type 0} {I J : Calls → Type 0} {P Q : A → Type 0} {m : M A}
    → Yields I J P m
    → ((a : A) → P a → Q a)
    → Yields I J Q m
Yields-mono {m} y f = record {
  at = λ log i. Returns-mono (m log) (y.at log i) (λ a log' h. (f a h.0, h.1));
}
