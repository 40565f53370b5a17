-- ===== src/Traits/Reboot/Late.antt =====
-- The reboot reason that arrives late.
use entservices_devicesettin.Prelude.{
  ℕ, zero, suc, ◌+◌, ◌≤◌, ◌<◌, ◌≡◌, ◌≢◌, refl, Bool, true, false, Option, none, some, ltb, arith,
}
use entservices_devicesettin.Device.{Device, Call, Calls, M, pure, ◌>>=◌}
use entservices_devicesettin.Device.Log.{Any, Stable}
use entservices_devicesettin.Device.Returns.{
  Yields, Yields-bind, Yields-if, Yields-pure, Yields-tell,
}
use entservices_devicesettin.Power.{PowerState, is_on, PortNames, Listener}
use entservices_devicesettin.Power.Ports.{set_av_ports_power_state}
use entservices_devicesettin.Power.Ports.Switching.{IsPortCall, set_av_ports_power_state_keeps}
use entservices_devicesettin.Traits.{
  Profile, stb, tv, stb_eu, tv_eu, Product, sync_display_ports_with_power_state,
}
use entservices_devicesettin.Traits.Reboot.{
  RebootType, hard, soft, unavailable, unless_decided, sync_display_ports_with_reboot_reason,
  check_by, display_after, reboot_reason_checks, schedule_reboot_reason_check, get_reboot_type,
  tv_display_by, reboot_reason_retries,
}

module _ (dev : Device) (names : PortNames) where
  -- On a TV that has made no power transition since it booted, a reboot reason that becomes known only in
  -- a later check sets the display as it would have been set, had it been known right after the reboot.
  pub sync_display_ports_with_reboot_reason_late :
      (in_eas : Bool) (reboot_type : RebootType) (product : Product)
      → product.ux.profile ≡ tv
      → product.ux.first_power_transition_complete ≡ false
      → reboot_type ≢ unavailable
      → sync_display_ports_with_reboot_reason dev names in_eas reboot_type product
        ≡ tv_display_by dev names in_eas reboot_type product
  unfolding sync_display_ports_with_reboot_reason unless_decided tv_display_by
  sync_display_ports_with_reboot_reason_late in_eas hard product t f u = rw (t, f) refl
  sync_display_ports_with_reboot_reason_late in_eas soft product t f u = rw (t, f) refl
  sync_display_ports_with_reboot_reason_late in_eas unavailable product t f u = absurd (u refl)

  pub sync_display_ports_with_reboot_reason_decided :
      (in_eas : Bool) (reboot_type : RebootType) (product : Product)
      → product.ux.first_power_transition_complete ≡ true
      → sync_display_ports_with_reboot_reason dev names in_eas reboot_type product ≡ pure product
  unfolding sync_display_ports_with_reboot_reason unless_decided
  sync_display_ports_with_reboot_reason_decided in_eas reboot_type product f =
      by_profile product.ux.profile
    where
      by_profile :
          (profile : Profile)
          → elim profile [
            | tv ↦
                unless_decided dev names in_eas product.ux.first_power_transition_complete
                  reboot_type product
            | _ ↦ pure product
          ]
            ≡ pure product
      by_profile stb = refl
      by_profile stb_eu = refl
      by_profile tv_eu = refl
      by_profile tv = rw f refl

  abbrev SameUx : Product → Product → Type 0
  SameUx product q = q.ux ≡ product.ux

  pub sync_display_ports_keeps :
      (I : Calls → Type 0) (in_eas : Bool) (power_state : PowerState) (product : Product)
      → ((call : Call) → IsPortCall (is_on power_state) call → Stable I call)
      → Yields I I
          (λ q. q.ux ≡ product.ux)
          (sync_display_ports_with_power_state dev names in_eas power_state product)
  unfolding sync_display_ports_with_power_state
  sync_display_ports_keeps I in_eas power_state product s = by_listener product.listener
    where
      by_listener :
          (listener : Option Listener)
          → Yields I I
              (λ q. q.ux ≡ product.ux)
              (elim listener [
                | none ↦ pure product
                | some listener ↦ do
                  changed ← set_av_ports_power_state dev names in_eas power_state listener
                  pure (record product { listener = some changed })
              ])
      by_listener none = Yields-pure _ refl
      by_listener (some listener) =
          Yields-bind (set_av_ports_power_state_keeps dev names I in_eas power_state listener s)
            (λ q _. Yields-pure _ refl)

  sync_reboot_reason_returns :
      (in_eas : Bool) (reboot_type : RebootType) (product : Product)
      → Yields Any Any
          (λ q. q.ux ≡ product.ux)
          (sync_display_ports_with_reboot_reason dev names in_eas reboot_type product)
  unfolding sync_display_ports_with_reboot_reason unless_decided
  sync_reboot_reason_returns in_eas reboot_type product = by_profile product.ux.profile
    where
      by_flag :
          (flag : Bool)
          → Yields Any Any
              (λ q. q.ux ≡ product.ux)
              (unless_decided dev names in_eas flag reboot_type product)
      by_flag true = Yields-pure _ refl
      by_flag false =
          sync_display_ports_keeps Any in_eas (display_after dev names reboot_type) product
            (λ _ _ _ _. tt)

      by_profile :
          (profile : Profile)
          → Yields Any Any
              (λ q. q.ux ≡ product.ux)
              (elim profile [
                | tv ↦
                    unless_decided dev names in_eas product.ux.first_power_transition_complete
                      reboot_type product
                | _ ↦ pure product
              ])
      by_profile stb = Yields-pure _ refl
      by_profile stb_eu = Yields-pure _ refl
      by_profile tv_eu = Yields-pure _ refl
      by_profile tv = by_flag product.ux.first_power_transition_complete

  -- The next check, if there is one, has the next count, and its count is within the limit.
  abbrev IsNext : ℕ → Option ℕ × Product → Type 0
  IsNext n (none, product) = Unit
  IsNext n (some next, product) = (next ≡ suc n) × (n < reboot_reason_retries)

  schedule-IsNext :
      (in_eas : Bool) (n : ℕ) (product : Product)
      → Yields Any Any (IsNext n) (schedule_reboot_reason_check dev names in_eas n product)
  unfolding schedule_reboot_reason_check check_by
  schedule-IsNext in_eas n product = record {
    at = λ log i. (by_type (get_reboot_type dev names log)).at log i;
  }
    where
      by_type :
          (reboot_type : RebootType)
          → Yields Any Any (IsNext n) (check_by dev names in_eas n reboot_type product)
      by_type hard =
          Yields-bind (sync_reboot_reason_returns in_eas hard product) (λ _ _. Yields-pure _ tt)
      by_type soft =
          Yields-bind (sync_reboot_reason_returns in_eas soft product) (λ _ _. Yields-pure _ tt)
      by_type unavailable =
          Yields-if (ltb n reboot_reason_retries)
            (λ h.
              Yields-bind {Q = Any} (Yields-tell _ tt (λ _ _. tt))
                (λ _ _. Yields-pure _ (refl, ground (arith, h))))
            (λ _. Yields-pure _ tt)

  -- The checks for the reboot reason end: from a count of n, 61 - n checks are enough, whatever the replies
  -- are and whatever the other threads do between them.
  pub reboot_reason_checks_end :
      (fuel : ℕ) (in_eas : Bool) (between : Product → M Product) (n : ℕ) (product : Product)
      → ((q : Product) → Yields Any Any Any (between q))
      → n ≤ reboot_reason_retries
      → reboot_reason_retries < fuel + n
      → Yields {A = Bool × Product} Any Any
          (λ r. r.0 ≡ true)
          (reboot_reason_checks dev names fuel in_eas between n product)
  unfolding reboot_reason_checks
  reboot_reason_checks_end zero in_eas between n product returns le enough =
      absurd (omega (arith, le, enough))
  reboot_reason_checks_end (suc fuel) in_eas between n product returns le enough =
      Yields-bind (schedule-IsNext in_eas n product) (λ r q. by_next r.0 r.1 q (λ next p e.
        reboot_reason_checks_end fuel in_eas between next p returns (omega (arith, e))
          (omega (arith, e, enough))))
    where
      by_next :
          (next : Option ℕ) (p : Product)
          → IsNext n (next, p)
          → ((m : ℕ) (p : Product)
              → (m ≡ suc n) × (n < reboot_reason_retries)
              → Yields {A = Bool × Product} Any Any
                  (λ r. r.0 ≡ true)
                  (reboot_reason_checks dev names fuel in_eas between m p))
          → Yields {A = Bool × Product} Any Any
              (λ r. r.0 ≡ true)
              (elim next [
                | none ↦ pure (true, p)
                | some m ↦ do
                  slept ← between p
                  reboot_reason_checks dev names fuel in_eas between m slept
              ])
      by_next none p q rest = Yields-pure _ refl
      by_next (some m) p q rest = Yields-bind (returns p) (λ slept _. rest m slept q)
