-- ===== src/Traits/Pattern/Retries.antt =====
-- The tries of `SetBootloaderPatternAsync`.
use entservices_devicesettin.Prelude.{
  ℕ, zero, suc, ◌-◌, ◌≤◌, ◌<◌, ◌≡◌, refl, ap, ◌⊎◌, inl, inr, Bool, true, false, ◌∷◌, arith,
  if◌then◌else◌,
}
use native.Mathlib.Numerals.{unary_clauses}
use entservices_devicesettin.Device.{
  Device, Calls, ask, skip, pure, ◌>>=◌, BlPattern, set_bootloader_pattern,
}
use entservices_devicesettin.Device.Returns.{Returns, Returns-mono}
use entservices_devicesettin.Traits.{UxController}
use entservices_devicesettin.Traits.Pattern.{set_pattern, set_pattern_async}

-- The log after so many tries.
abbrev pub after_tries : BlPattern → ℕ → Calls → Calls
after_tries pattern zero log = log
after_tries pattern (suc k) log = after_tries pattern k (set_bootloader_pattern pattern ∷ log)

module _ (dev : Device) (invalidated : ℕ → Bool) (pattern : BlPattern) where
  -- The reply to the try after i others.
  abbrev reply_at : ℕ → Calls → Bool
  reply_at i log = dev.bootloader_pattern_set (after_tries pattern i log) pattern

  -- At most n tries were made; each but the last failed; the last one succeeded, unless all n were made or
  -- the pattern was invalidated.
  pub record Tried (n : ℕ) (log log' : Calls) : Type 0 where
    pub count : ℕ
    pub count_le : count ≤ n
    pub log_is : log' ≡ after_tries pattern count log
    pub failed : (i : ℕ) → suc i < count → reply_at i log ≡ false
    pub ended :
        (count ≡ n)
        ⊎ ((invalidated (n - count) ≡ true)
            ⊎ ((i : ℕ) × ((suc i ≡ count) × (reply_at i log ≡ true))))

  -- One failed try, and then the others.
  Tried-suc :
      (n : ℕ) (log log' : Calls)
      → dev.bootloader_pattern_set log pattern ≡ false
      → Tried n (set_bootloader_pattern pattern ∷ log) log'
      → Tried (suc n) log log'
  Tried-suc n log log' e t = record {
    count = suc t.count;
    count_le = omega (arith, t.count_le);
    log_is = t.log_is;
    failed = failed;
    ended = elim t.ended [
      | inl h ↦ inl (ap suc h)
      | inr (inl h) ↦ inr (inl (simp unary_clauses h))
      | inr (inr (i, (h, r))) ↦ inr (inr (suc i, (ap suc h, r)))
    ];
  }
    where
      failed : (i : ℕ) → suc i < suc t.count → reply_at i log ≡ false
      failed zero h = e
      failed (suc i) h = t.failed i (omega (arith, h))

  module _ (ux : UxController) (silent : ux.enable_silent_reboot_support ≡ true) where
    set_pattern_asks :
        set_pattern dev pattern ux
        ≡ ask (λ log. dev.bootloader_pattern_set log pattern) (set_bootloader_pattern pattern)
    unfolding set_pattern
    set_pattern_asks = rw silent refl

    called_off : (n : ℕ) (log : Calls) → invalidated n ≡ true → Tried n log log
    called_off n log h = record {
      count = 0;
      count_le = omega arith;
      log_is = refl;
      failed = λ i h. absurd (omega (arith, h));
      ended = inr (inl (simp unary_clauses h));
    }

    after_reply :
        (n : ℕ) (log : Calls) (reply : Bool)
        → dev.bootloader_pattern_set log pattern ≡ reply
        → Returns
            (λ _ log'. Tried n (set_bootloader_pattern pattern ∷ log) log')
            (set_pattern_async dev n invalidated pattern ux (set_bootloader_pattern pattern ∷ log))
        → Returns
            (λ _ log'. Tried (suc n) log log')
            ((if reply then skip else set_pattern_async dev n invalidated pattern ux)
              (set_bootloader_pattern pattern ∷ log))
    unfolding pure
    after_reply n log true e rest = record {
      count = 1;
      count_le = omega arith;
      log_is = refl;
      failed = λ i h. absurd (omega (arith, h));
      ended = inr (inr (0, (refl, e)));
    }
    after_reply n log false e rest =
        Returns-mono
          (set_pattern_async dev n invalidated pattern ux (set_bootloader_pattern pattern ∷ log))
          rest (λ _ log' t. Tried-suc n log log' e t)

    by_flag :
        (n : ℕ) (log : Calls) (flag : Bool)
        → invalidated (suc n) ≡ flag
        → Returns
            (λ _ log'. Tried n (set_bootloader_pattern pattern ∷ log) log')
            (set_pattern_async dev n invalidated pattern ux (set_bootloader_pattern pattern ∷ log))
        → Returns
            (λ _ log'. Tried (suc n) log log')
            ((if flag then skip else (do
              ret ←
                  ask
                    (λ log. dev.bootloader_pattern_set log pattern)
                    (set_bootloader_pattern pattern)
              if ret then skip else set_pattern_async dev n invalidated pattern ux))
              log)
    unfolding pure ◌>>=◌ ask
    by_flag n log true e rest = called_off (suc n) log e
    by_flag n log false e rest =
        after_reply n log (dev.bootloader_pattern_set log pattern) refl rest

    -- The retry thread makes at most `n` tries and always ends, whatever the replies and whenever the
    -- pattern is invalidated: each try but the last failed, and it stops early only because a try
    -- succeeded or because the pattern was invalidated before the next one. The product supports the
    -- silent reboot.
    pub set_pattern_async-Tried :
        (n : ℕ) (log : Calls)
        → Returns (λ _ log'. Tried n log log') (set_pattern_async dev n invalidated pattern ux log)
    unfolding set_pattern_async pure
    set_pattern_async-Tried zero log = record {
      count = 0;
      count_le = omega arith;
      log_is = refl;
      failed = λ i h. absurd (omega (arith, h));
      ended = inl refl;
    }
    set_pattern_async-Tried (suc n) log = rw set_pattern_asks (
        by_flag n log (invalidated (suc n)) refl
          (set_pattern_async-Tried n (set_bootloader_pattern pattern ∷ log)))
