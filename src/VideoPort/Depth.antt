-- ===== src/VideoPort/Depth.antt =====
-- plugin/hal/dVideoPortImpl.h: the preferred color depth, negotiated with the display.
pub mod Negotiated
use Prim.Native.Nat.{bit_and, bit_or}
use entservices_devicesettin.Prelude.{
  ℕ, Bool, true, false, not, ◌&&◌, ◌||◌, Option, none, some, Bytes, ◌==◌, if◌then◌else◌,
}
use entservices_devicesettin.Device.{error_none, error_general}
use entservices_devicesettin.Fpd.Numbers.{to_string, stoi}
use entservices_devicesettin.VideoPort.{Constants, Hal, VideoPort, key_depth}

-- A symbol of the HAL's library that may be missing: the call then fails.
abbrev pub optional : {A W : Type 0} → Option (W → (ℕ × A) × W) → A → W → (ℕ × A) × W
optional none a w = ((1, a), w)
optional (some f) a w = f w

-- (a & b) != 0
unfoldable pub shares_bit : ℕ → ℕ → Bool
shares_bit a b = not (bit_and a b == 0)

module _ (k : Constants) where
  -- The choice in getBestSupportedColorDepth, once the capabilities are known.
  unfoldable pub best_of : ℕ → ℕ → ℕ
  unfolding shares_bit
  best_of capability requested =
      let all = bit_or capability k.depth_auto in
      if shares_bit all requested && not (requested == k.depth_auto)
      then requested
      else if shares_bit all k.depth_12bit
      then k.depth_12bit
      else if shares_bit all k.depth_10bit
      then k.depth_10bit
      else k.depth_8bit

module _ (k : Constants) {W : Type 0} (hal : Hal W) where
  abbrev pub current_depth_of : ℕ → W → (ℕ × ℕ) × W
  current_depth_of handle =
      optional (elim hal.current_depth [ none ↦ none | some f ↦ some (f handle) ]) k.depth_unknown

  abbrev pub capabilities_of : ℕ → W → (ℕ × ℕ) × W
  capabilities_of handle =
      optional (elim hal.depth_capabilities [ none ↦ none | some f ↦ some (f handle) ]) 0

  -- setPreferredColorDepthHAL
  unfoldable pub set_depth_hal : ℕ → ℕ → W → ℕ × W
  set_depth_hal handle depth w = elim hal.set_depth [ none ↦ (1, w) | some f ↦ f handle depth w ]

  -- getBestSupportedColorDepth
  unfoldable pub best_supported_depth : ℕ → ℕ → W → ℕ × W
  unfolding best_of
  best_supported_depth handle requested w =
      let reply : (ℕ × ℕ) × W = capabilities_of handle w in
      (if reply.0.0 == 0 then best_of k reply.0.1 requested else k.depth_8bit, reply.1)

  abbrev number_or : ℕ → Option ℕ → ℕ
  number_or default none = default
  number_or default (some n) = n

  abbrev number_of : ℕ → Option Bytes → ℕ
  number_of default none = default
  number_of default (some text) = number_or default (stoi text)

  -- getPersistentColorDepth: where the persistence throws or the text is no number, the default.
  unfoldable pub persistent_depth : W → ℕ
  persistent_depth w = number_of k.depth_auto (hal.property key_depth (to_string k.depth_auto) w)

  -- GetPreferredColorDepth; `before` is what the output parameter holds.
  unfoldable pub get_preferred_depth : ℕ → ℕ → Bool → VideoPort W → (ℕ × ℕ) × VideoPort W
  unfolding persistent_depth
  get_preferred_depth handle before persist p =
      let missing : Bool = elim hal.current_depth [ none ↦ true | some f ↦ false ] in
      let reply : (ℕ × ℕ) × W = current_depth_of handle p.world in
      if persist
      then ((error_none, persistent_depth p.world), p)
      else if missing
      then ((error_general, k.depth_unknown), p)
      else (
        if reply.0.0 == 0 then (error_none, reply.0.1) else (error_general, before),
        record p { world = reply.1 },
      )

  abbrev persist_depth : Bool → ℕ → W → W
  persist_depth persist depth w =
      if persist then (hal.persist_property key_depth (to_string depth) w).1 else w

  -- SetPreferredColorDepth on a port that is not known to be disconnected.
  unfoldable pub negotiate_depth : ℕ → ℕ → Bool → W → ℕ × W
  unfolding best_supported_depth set_depth_hal
  negotiate_depth handle depth persist w =
      let current : (ℕ × ℕ) × W = current_depth_of handle w in
      let best : ℕ × W = best_supported_depth handle depth current.1 in
      let reply : ℕ × W = set_depth_hal handle best.0 best.1 in
      if current.0.0 == 0 && depth == current.0.1
      then (error_none, persist_depth persist depth current.1)
      else if reply.0 == 0
      then (error_none, persist_depth persist depth reply.1)
      else (error_general, reply.1)

  -- SetPreferredColorDepth: what is persisted is the depth that was asked for.
  unfoldable pub set_preferred_depth : ℕ → ℕ → Bool → VideoPort W → ℕ × VideoPort W
  unfolding negotiate_depth
  set_preferred_depth handle depth persist p =
      let connected : (ℕ × Bool) × W = hal.display_connected handle p.world in
      let r : ℕ × W = negotiate_depth handle depth persist connected.1 in
      if connected.0.0 == 0 && not connected.0.1
      then (error_general, record p { world = connected.1 })
      else (r.0, record p { world = r.1 })

  -- ApplyPreferredColorDepthAfterHdmiReset, with the handle that it was given or found; 0 is none.
  unfoldable pub apply_preferred_depth : ℕ → W → W
  unfolding persistent_depth best_supported_depth set_depth_hal
  apply_preferred_depth handle w =
      let connected : (ℕ × Bool) × W = hal.display_connected handle w in
      let persisted = persistent_depth connected.1 in
      let current : (ℕ × ℕ) × W = current_depth_of handle connected.1 in
      let best : ℕ × W = best_supported_depth handle persisted current.1 in
      if handle == 0
      then w
      else if not (connected.0.0 == 0) || not connected.0.1
      then connected.1
      else if current.0.0 == 0 && current.0.1 == persisted
      then current.1
      else (set_depth_hal handle best.0 best.1).1
