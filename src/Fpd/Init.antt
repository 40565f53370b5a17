-- ===== src/Fpd/Init.antt =====
-- The initialization of the front panel's HAL on first use.
use entservices_devicesettin.Prelude.{
  ℕ, zero, suc, ◌<◌, ◌≡◌, ◌≢◌, refl, ap, ◌∙◌, Bool, true, false, Option, none, some, arith, ◌==◌,
  ==_iff, if◌then◌else◌, Bool-cases, if_true, if_false, inl, inr,
}
use entservices_devicesettin.Fpd.{
  Constants, Host, Panel, init_tries, try_init, load_persisted, load_power, load_text, load_color,
  property_or_default, after_tries, ensure_plat_init,
}

module _ {W : Type 0} (host : Host W) where
  -- The world after so many calls of dsFPInit, and the result of the call after them.
  abbrev pub after_inits : ℕ → W → W
  after_inits zero w = w
  after_inits (suc i) w = after_inits i (host.fp_init w).1

  abbrev pub init_result : ℕ → W → ℕ
  init_result i w = (host.fp_init (after_inits i w)).0

not_zero : (n : ℕ) → n ≢ 0 → n == 0 ≡ false
not_zero n h = elim (Bool-cases (n == 0)) [ inl e ↦ absurd (h ((==_iff n 0).0 e)) | inr e ↦ e ]

module _ (k : Constants) {W : Type 0} (host : Host W) where
  try_init_first :
      (i n : ℕ) (p : Panel W)
      → i < n
      → ((j : ℕ) → j < i → init_result host j p.world ≢ 0)
      → init_result host i p.world ≡ 0
      → try_init k host n p
        ≡ record p { is_plat_initialized = true; world = after_inits host (suc i) p.world }
  unfolding try_init
  try_init_first i zero p l f s = absurd (omega (arith, l))
  try_init_first zero (suc n) p l f s = rw ((==_iff _ 0).1 s) refl
  try_init_first (suc i) (suc n) p l f s = rw (not_zero _ (f 0 (omega arith))) (
      try_init_first i n (record p { world = (host.fp_init p.world).1 }) (omega (arith, l))
        (λ j h. f (suc j) (omega (arith, h))) s)

  try_init_never :
      (n : ℕ) (p : Panel W)
      → ((j : ℕ) → j < n → init_result host j p.world ≢ 0)
      → try_init k host n p ≡ record p { world = after_inits host n p.world }
  unfolding try_init
  try_init_never zero p f = refl
  try_init_never (suc n) p f = rw (not_zero _ (f 0 (omega arith))) (
      try_init_never n (record p { world = (host.fp_init p.world).1 })
        (λ j h. f (suc j) (omega (arith, h))))

  -- The HAL is initialized by the first call of dsFPInit that succeeds, if it is among the first twenty; no
  -- call follows it, and the persisted settings are loaded.
  pub ensure_plat_init_first :
      (i : ℕ) (p : Panel W)
      → p.is_plat_initialized ≡ false
      → i < init_tries
      → ((j : ℕ) → j < i → init_result host j p.world ≢ 0)
      → init_result host i p.world ≡ 0
      → ensure_plat_init k host p ≡ (
        true,
        load_persisted k host
            (record p { is_plat_initialized = true; world = after_inits host (suc i) p.world }),
      )
  unfolding ensure_plat_init after_tries
  ensure_plat_init_first i p e l f s =
      if_false _ _ _ e ∙ ap (after_tries k host) (try_init_first i init_tries p l f s)

  -- Where twenty calls of dsFPInit fail, there is no further one, and nothing else has changed.
  pub ensure_plat_init_never :
      (p : Panel W)
      → p.is_plat_initialized ≡ false
      → ((j : ℕ) → j < init_tries → init_result host j p.world ≢ 0)
      → ensure_plat_init k host p
        ≡ (false, record p { world = after_inits host init_tries p.world })
  unfolding ensure_plat_init after_tries
  ensure_plat_init_never p e f =
      if_false _ _ _ e ∙ ap (after_tries k host) (try_init_never init_tries p f) ∙ if_false _ _ _ e

  load_persisted_plat :
      (p : Panel W) → (load_persisted k host p).is_plat_initialized ≡ p.is_plat_initialized
  unfolding load_persisted load_power load_text load_color
  load_persisted_plat p =
      by_power (property_or_default k host (host.get_property _ p.world) _ p.world)
    where
      by_text :
          (r : Option _ × W) (q : Panel W)
          → (load_text k host r q).is_plat_initialized ≡ q.is_plat_initialized
      by_text (none, w) q = refl
      by_text (some v, w) q = refl

      by_power :
          (r : Option _ × W) → (load_power k host r p).is_plat_initialized ≡ p.is_plat_initialized
      by_power (none, w) = refl
      by_power (some v, w) = by_text _ _

  abbrev loaded : Bool → Panel W → Bool × Panel W
  loaded b q = if b then (true, load_persisted k host q) else (false, q)

  abbrev tried : Bool → Panel W → Bool × Panel W
  tried b p = if b then (true, p) else after_tries k host (try_init k host init_tries p)

  after_tries_plat :
      (q : Panel W) (b : Bool)
      → q.is_plat_initialized ≡ b
      → (loaded b q).0 ≡ true
      → (loaded b q).1.is_plat_initialized ≡ true
  after_tries_plat q true e h = load_persisted_plat q ∙ e
  after_tries_plat q false e h = absurd (cc)

  -- What EnsurePlatInit leaves is initialized if it says so.
  pub ensure_plat_init_plat :
      (p : Panel W)
      → (ensure_plat_init k host p).0 ≡ true
      → (ensure_plat_init k host p).1.is_plat_initialized ≡ true
  unfolding ensure_plat_init after_tries
  ensure_plat_init_plat p h = by_plat p.is_plat_initialized refl h
    where
      by_plat :
          (b : Bool)
          → p.is_plat_initialized ≡ b
          → (tried b p).0 ≡ true
          → (tried b p).1.is_plat_initialized ≡ true
      by_plat true e h = e
      by_plat false e h =
          after_tries_plat (try_init k host init_tries p)
            (try_init k host init_tries p).is_plat_initialized refl h

  -- A panel that is initialized is left as it is.
  pub ensure_plat_init_done :
      (p : Panel W) → p.is_plat_initialized ≡ true → ensure_plat_init k host p ≡ (true, p)
  unfolding ensure_plat_init
  ensure_plat_init_done p e = if_true _ _ _ e

  load_persisted_settings : (p : Panel W) → (load_persisted k host p).settings ≡ p.settings
  unfolding load_persisted load_power load_text load_color
  load_persisted_settings p =
      by_power (property_or_default k host (host.get_property _ p.world) _ p.world)
    where
      by_text : (r : Option _ × W) (q : Panel W) → (load_text k host r q).settings ≡ q.settings
      by_text (none, w) q = refl
      by_text (some v, w) q = refl

      by_power : (r : Option _ × W) → (load_power k host r p).settings ≡ p.settings
      by_power (none, w) = refl
      by_power (some v, w) = by_text _ _

  try_init_settings : (n : ℕ) (p : Panel W) → (try_init k host n p).settings ≡ p.settings
  unfolding try_init
  try_init_settings zero p = refl
  try_init_settings (suc n) p = elim (Bool-cases ((host.fp_init p.world).0 == 0)) [
    | inl e ↦ rw e refl
    | inr e ↦ rw e (try_init_settings n (record p { world = (host.fp_init p.world).1 }))
  ]

  -- The initialization keeps the cached settings.
  pub ensure_plat_init_settings :
      (p : Panel W) → (ensure_plat_init k host p).1.settings ≡ p.settings
  unfolding ensure_plat_init after_tries
  ensure_plat_init_settings p = by_plat p.is_plat_initialized
    where
      by_tries : (b : Bool) (q : Panel W) → (loaded b q).1.settings ≡ q.settings
      by_tries true q = load_persisted_settings q
      by_tries false q = refl

      by_plat : (b : Bool) → (tried b p).1.settings ≡ p.settings
      by_plat true = refl
      by_plat false =
          by_tries (try_init k host init_tries p).is_plat_initialized (try_init k host init_tries p)
          ∙ try_init_settings init_tries p
