-- ===== src/Fpd/Platform/Persistence.antt =====
-- The host's persistence over a restart of the process.
use entservices_devicesettin.Prelude.{
  ℕ, zero, suc, ◌≡◌, ap, ◌∙◌, true, Option, some, Bytes, ◌==◌, Bool-cases, inl, inr, if_true,
  if_false,
}
use entservices_devicesettin.Fpd.{
  Constants, Host, Panel, initialise_hal, de_initialise_hal, try_init, static_values,
}

-- The documented behavior of the persistence: it throws nothing, a property that was persisted is read
-- back, and the HAL's start and end leave the properties alone.
pub record Persists {W : Type 0} (host : Host W) : Type 0 where
  pub get_same :
      (key value : Bytes) (w : W)
      → host.get_property key (host.persist_property key value w).1 ≡ some value
  pub persists : (key value : Bytes) (w : W) → (host.persist_property key value w).0 ≡ true
  pub get_after_init :
      (key : Bytes) (w : W) → host.get_property key (host.fp_init w).1 ≡ host.get_property key w
  pub get_after_term :
      (key : Bytes) (w : W) → host.get_property key (host.fp_term w) ≡ host.get_property key w

-- The process ends and starts again: the static variables have their first values.
abbrev pub restarted : {W : Type 0} → Constants → Host W → Panel W → Panel W
restarted k host p = initialise_hal k host (static_values k (de_initialise_hal k host p).world)

-- The persistence holds a value under the key.
abbrev pub Holds : {W : Type 0} → Host W → Bytes → Option Bytes → Panel W → Type 0
Holds host key value p = host.get_property key p.world ≡ value

module _ (k : Constants) {W : Type 0} (host : Host W) (laws : Persists host) (key : Bytes) where
  pub de_initialise_hal-Holds :
      (value : Option Bytes) (p : Panel W)
      → Holds host key value p
      → Holds host key value (de_initialise_hal k host p)
  unfolding de_initialise_hal
  de_initialise_hal-Holds value p h = elim (Bool-cases p.is_plat_initialized) [
    | inl e ↦
        ap (λ (q : Panel W). host.get_property key q.world) (if_true _ _ _ e)
        ∙ laws.get_after_term key p.world
        ∙ h
    | inr e ↦ ap (λ (q : Panel W). host.get_property key q.world) (if_false _ _ _ e) ∙ h
  ]

  pub try_init-Holds :
      (n : ℕ) (value : Option Bytes) (p : Panel W)
      → Holds host key value p
      → Holds host key value (try_init k host n p)
  unfolding try_init
  try_init-Holds zero value p h = h
  try_init-Holds (suc n) value p h = elim (Bool-cases ((host.fp_init p.world).0 == 0)) [
    | inl e ↦ rw e (laws.get_after_init key p.world ∙ h)
    | inr e ↦ rw e (
        try_init-Holds n value (record p { world = (host.fp_init p.world).1 })
          (laws.get_after_init key p.world ∙ h))
  ]
