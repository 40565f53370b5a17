-- ===== src/Device/Log.antt =====
-- Statements about what a piece of code adds to the log and returns, and their rules.
use entservices_devicesettin.Prelude.{
  ◌≡◌, refl, subst, Bool, true, false, Option, none, some, ◌∷◌, if◌then◌else◌,
}
use entservices_devicesettin.Device.{Call, Calls, M, ◌>>=◌, ask, tell, pure, abort}

-- An abort ends the process, so nothing is asked of it.
abbrev pub Ends : {A : Type 0} → (A → Calls → Type 0) → Option (A × Calls) → Type 0
Ends P none = Unit
Ends P (some (a, log)) = P a log

-- Started on a log that satisfies I, the code leaves such a log and a value in Q.
pub record Ensures {A : Type 0} (I : Calls → Type 0) (Q : A → Type 0) (m : M A) : Type 0 where
  pub at : (log : Calls) → I log → Ends (λ a log'. Q a × I log') (m log)

-- From a statement on what the first part ends in to one on the whole.
pub Ends-bind :
    {A B : Type 0} (Q : A → Calls → Type 0) (R : B → Calls → Type 0) (m : M A) (f : A → M B)
    (log : Calls)
    → Ends Q (m log)
    → ((a : A) (log' : Calls) → Q a log' → Ends R (f a log'))
    → Ends R ((m >>= f) log)
unfolding ◌>>=◌
Ends-bind {A} {B} Q R m f log h k = go (m log) h
  where
    go :
        (o : Option (A × Calls))
        → Ends Q o
        → Ends R (elim o [ none ↦ none | some (a, log') ↦ f a log' ])
    go none h = tt
    go (some (a, log')) h = k a log' h

pub Ends-if :
    {A : Type 0} (R : A → Calls → Type 0) (b : Bool) (m n : M A) (log : Calls)
    → (b ≡ true → Ends R (m log))
    → (b ≡ false → Ends R (n log))
    → Ends R ((if b then m else n) log)
Ends-if R true m n log h k = h refl
Ends-if R false m n log h k = k refl

pub Ends-pure :
    {A : Type 0} (R : A → Calls → Type 0) (a : A) (log : Calls) → R a log → Ends R (pure a log)
unfolding pure
Ends-pure R a log r = r

pub Ends-some :
    {A : Type 0} (R : A → Calls → Type 0) (o : Option (A × Calls)) (a : A) (log : Calls)
    → Ends R o
    → o ≡ some (a, log)
    → R a log
Ends-some R o a log r e = subst (Ends R) e r

pub Ends-mono :
    {A : Type 0} {P Q : A → Calls → Type 0} (o : Option (A × Calls))
    → Ends P o
    → ((a : A) (log : Calls) → P a log → Q a log)
    → Ends Q o
Ends-mono none h k = tt
Ends-mono (some (a, log)) h k = k a log h

pub Ends-any : {A : Type 0} (o : Option (A × Calls)) → Ends (λ _ _. Unit {0}) o
Ends-any none = tt
Ends-any (some (a, log)) = tt

abbrev pub Any : {A : Type 0} → A → Type 0
Any a = Unit {0}

-- The call may be added to the log.
abbrev pub Stable : (Calls → Type 0) → Call → Type 0
Stable I call = (log : Calls) → I log → I (call ∷ log)

module _ {A B : Type 0} {I : Calls → Type 0} {R : B → Type 0} (Q : A → Type 0) where
  bind-Ends :
      (o : Option (A × Calls)) (f : A → M B)
      → Ends (λ a log. Q a × I log) o
      → ((a : A) → Q a → Ensures I R (f a))
      → Ends (λ b log. R b × I log) (elim o [ none ↦ none | some (a, log) ↦ f a log ])
  bind-Ends none f h k = tt
  bind-Ends (some (a, log)) f h k = (k a h.0).at log h.1

  pub Ensures-bind :
      {m : M A} {f : A → M B}
      → Ensures I Q m
      → ((a : A) → Q a → Ensures I R (f a))
      → Ensures I R (m >>= f)
  unfolding ◌>>=◌
  Ensures-bind {m} {f} h k = record { at = λ log l. bind-Ends (m log) f (h.at log l) k }

module _ {A : Type 0} {I : Calls → Type 0} {Q : A → Type 0} where
  pub Ensures-if :
      (b : Bool) {m n : M A}
      → (b ≡ true → Ensures I Q m)
      → (b ≡ false → Ensures I Q n)
      → Ensures I Q (if b then m else n)
  Ensures-if true h k = h refl
  Ensures-if false h k = k refl

  pub Ensures-pure : (a : A) → Q a → Ensures I Q (pure a)
  unfolding pure
  Ensures-pure a q = record { at = λ log l. (q, l) }

  pub Ensures-ask :
      (reply : Calls → A) (call : Call)
      → Stable I call
      → ((log : Calls) → Q (reply log))
      → Ensures I Q (ask reply call)
  unfolding ask
  Ensures-ask reply call s q = record { at = λ log l. (q log, s log l) }

module _ {I : Calls → Type 0} where
  pub Ensures-tell : (call : Call) → Stable I call → Ensures I Any (tell call)
  unfolding tell
  Ensures-tell call s = record { at = λ log l. (tt, s log l) }

  -- An abort ensures anything.
  pub Ensures-abort : {A : Type 0} {Q : A → Type 0} → Ensures {A = A} I Q abort
  unfolding abort
  Ensures-abort = record { at = λ log l. tt }

-- Started on a log that satisfies I, the code leaves one that satisfies J.
pub record Leads {A : Type 0} (I J : Calls → Type 0) (m : M A) : Type 0 where
  pub at : (log : Calls) → I log → Ends (λ a log'. J log') (m log)

module _ {A : Type 0} {I J : Calls → Type 0} where
  pub Leads-bind :
      {B : Type 0} {m : M B} {f : B → M A}
      → Ensures I Any m
      → ((b : B) → Leads I J (f b))
      → Leads I J (m >>= f)
  Leads-bind {m} {f} h k = record {
    at = λ log i.
        Ends-bind (λ _ l. Unit {0} × I l) (λ _. J) m f log (h.at log i) (λ b l q. (k b).at l q.1);
  }

  pub Leads-if :
      (b : Bool) {m n : M A}
      → (b ≡ true → Leads I J m)
      → (b ≡ false → Leads I J n)
      → Leads I J (if b then m else n)
  Leads-if true h k = h refl
  Leads-if false h k = k refl

  pub Leads-pure : (a : A) → ((log : Calls) → I log → J log) → Leads I J (pure a)
  unfolding pure
  Leads-pure a sub = record { at = λ log i. sub log i }

  pub Leads-abort : Leads {A = A} I J abort
  unfolding abort
  Leads-abort = record { at = λ log i. tt }

module _ {I J : Calls → Type 0} where
  pub Leads-tell : (call : Call) → ((log : Calls) → I log → J (call ∷ log)) → Leads I J (tell call)
  unfolding tell
  Leads-tell call h = record { at = λ log i. h log i }

  -- The continuation may use that its argument is the reply to this call.
  pub Leads-ask_then :
      {A B : Type 0} (reply : Calls → A) (call : Call) (f : A → M B)
      → ((log : Calls) → I log → Ends (λ _. J) (f (reply log) (call ∷ log)))
      → Leads I J (ask reply call >>= f)
  unfolding ask ◌>>=◌
  Leads-ask_then reply call f h = record { at = λ log i. h log i }
