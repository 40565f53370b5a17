-- ===== src/VideoPort/Depth/Negotiated.antt =====
-- What the code persists of a color depth.
use entservices_devicesettin.Prelude.{
  ℕ, ◌≡◌, ◌<◌, refl, true, not, ◌&&◌, some, Bytes, arith, ◌==◌, if◌then◌else◌, by_branch,
}
use entservices_devicesettin.Device.{error_none, error_general}
use entservices_devicesettin.Fpd.Numbers.{to_string, stoi-to_string}
use entservices_devicesettin.VideoPort.{Constants, Hal, VideoPort, key_depth}
use entservices_devicesettin.VideoPort.Depth.{
  current_depth_of, set_depth_hal, best_supported_depth, persistent_depth, get_preferred_depth,
  persist_depth, negotiate_depth, set_preferred_depth,
}

module _ (k : Constants) {W : Type 0} (hal : Hal W) where
  abbrev pub ReadsBack : Type 0
  ReadsBack =
      (key value default : Bytes) (w : W)
      → hal.property key default (hal.persist_property key value w).1 ≡ some value

  negotiate_persisted :
      (handle depth : ℕ) (w : W)
      → ReadsBack
      → (negotiate_depth k hal handle depth true w).0 ≡ error_none
      → hal.property key_depth
          (to_string k.depth_auto)
          (negotiate_depth k hal handle depth true w).1
        ≡ some (to_string depth)
  unfolding negotiate_depth
  negotiate_persisted handle depth w laws =
      let current = current_depth_of k hal handle w in
      let best = best_supported_depth k hal handle depth current.1 in
      let reply = set_depth_hal k hal handle best.0 best.1 in
      let P : ℕ × W → Type 0 = λ r.
        r.0 ≡ error_none
        → hal.property key_depth (to_string k.depth_auto) r.1 ≡ some (to_string depth) in
      by_branch P (current.0.0 == 0 && depth == current.0.1)
        (error_none, persist_depth k hal true depth current.1)
        (if reply.0 == 0
          then (error_none, persist_depth k hal true depth reply.1)
          else (error_general, reply.1))
        (λ e h. laws key_depth (to_string depth) _ current.1)
        (λ e.
          by_branch P (reply.0 == 0) (error_none, persist_depth k hal true depth reply.1)
            (error_general, reply.1) (λ f h. laws key_depth (to_string depth) _ reply.1)
            (λ f h. absurd (omega (arith, h))))

  -- A depth that was set with success and persisted is the persisted depth that GetPreferredColorDepth answers
  -- then, for any handle: the one that was asked for, also where the display got another.
  pub set_preferred_depth-get :
      (handle other depth before : ℕ) (p : VideoPort W)
      → ReadsBack
      → depth < 2147483648
      → (set_preferred_depth k hal handle depth true p).0 ≡ error_none
      → (get_preferred_depth k hal other before true
          (set_preferred_depth k hal handle depth true p).1).0
        ≡ (error_none, depth)
  unfolding set_preferred_depth get_preferred_depth persistent_depth
  set_preferred_depth-get handle other depth before p laws l =
      let connected = hal.display_connected handle p.world in
      let r = negotiate_depth k hal handle depth true connected.1 in
      by_branch
        (λ (s : ℕ × VideoPort W).
          s.0 ≡ error_none
          → (get_preferred_depth k hal other before true s.1).0 ≡ (error_none, depth))
        (connected.0.0 == 0 && not connected.0.1) (error_general, record p { world = connected.1 })
        (r.0, record p { world = r.1 }) (λ e h. absurd (omega (arith, h)))
        (λ e h.
          rw (negotiate_persisted handle depth connected.1 laws h, stoi-to_string depth l) refl)
