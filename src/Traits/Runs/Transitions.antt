-- ===== src/Traits/Runs/Transitions.antt =====
-- What holds of every sequence of the operations.
use entservices_devicesettin.Prelude.{◌≡◌, refl, ap, ◌∙◌, Bool, true, false, List, [], ◌∷◌}
use entservices_devicesettin.Device.{
  Device, Call, Calls, pure, set_bootloader_pattern, start_pattern_retry, get_video_port,
  get_audio_port, is_audio_port_enabled, get_device_setting_configs, force_eas_stereo,
  enable_video_port, enable_audio_port,
}
use entservices_devicesettin.Device.Log.{Any, Stable}
use entservices_devicesettin.Device.Returns.{Yields, Yields-bind, Yields-pure, Yields-mono}
use entservices_devicesettin.Power.{PowerState, PortNames}
use entservices_devicesettin.Power.Ports.Switching.{IsPortCall}
use entservices_devicesettin.Traits.{stb, tv, Product, construct}
use entservices_devicesettin.Traits.Kept.{Kept, Kept-refl, Kept-trans, Admits}
use entservices_devicesettin.Traits.Reboot.{RebootType, sync_display_ports_with_reboot_reason}
use entservices_devicesettin.Traits.Reboot.Late.{sync_display_ports_with_reboot_reason_decided}
use entservices_devicesettin.Traits.Reboot.Keeps.{schedule_keeps}
use entservices_devicesettin.Traits.Apply.{apply_pre_reboot_config}
use entservices_devicesettin.Traits.Apply.Keeps.{
  change_keeps, change_decides, maintenance_keeps, post_reboot_keeps,
}
use entservices_devicesettin.Traits.Runs.{
  Operation, run_operation, run_operations, power_state_change, pre_reboot, pre_maintenance_reboot,
  post_reboot, reboot_reason_check,
}

module _ (dev : Device) (names : PortNames) (led_sync_in_bootup : Bool) (I : Calls → Type 0)
    (silent : Bool) (a : Admits I silent) where
  run_operation_keeps :
      (op : Operation) (product : Product)
      → product.ux.enable_silent_reboot_support ≡ silent
      → Yields I I
          (λ q. Kept product.ux q.ux)
          (run_operation dev names led_sync_in_bootup op product)
  unfolding run_operation apply_pre_reboot_config
  run_operation_keeps (power_state_change in_eas new_state prev_state) product f =
      Yields-bind
        (change_keeps dev names led_sync_in_bootup in_eas I silent a new_state prev_state product f)
        (λ r k. Yields-pure _ k)
  run_operation_keeps (pre_reboot state) product f =
      Yields-bind {Q = λ r. Kept product.ux r.1.ux} (Yields-pure _ (Kept-refl product.ux))
        (λ r k. Yields-pure _ k)
  run_operation_keeps (pre_maintenance_reboot state) product f =
      Yields-bind (maintenance_keeps dev names led_sync_in_bootup false I silent a state product f)
        (λ r k. Yields-pure _ k)
  run_operation_keeps (post_reboot in_eas target last_known) product f =
      Yields-bind
        (post_reboot_keeps dev names led_sync_in_bootup in_eas I silent a target last_known product
          f)
        (λ r k. Yields-pure _ k)
  run_operation_keeps (reboot_reason_check in_eas retry_count) product f =
      Yields-bind (schedule_keeps dev names I silent a in_eas retry_count product)
        (λ r k. Yields-pure _ k)

  run_operations_keeps :
      (ops : List Operation) (product : Product)
      → product.ux.enable_silent_reboot_support ≡ silent
      → Yields I I
          (λ q. Kept product.ux q.ux)
          (run_operations dev names led_sync_in_bootup ops product)
  unfolding run_operations
  run_operations_keeps [] product f = Yields-pure _ (Kept-refl product.ux)
  run_operations_keeps (op ∷ ops) product f =
      Yields-bind (run_operation_keeps op product f)
        (λ q k. Yields-mono (run_operations_keeps ops q (k.silent ∙ f)) (λ r k'. Kept-trans k k'))

-- Every log is admitted.
Any-Admits : (silent : Bool) → Admits Any silent
Any-Admits silent = record {
  ports = λ _ _ _ _ _. tt;
  led = λ _ _ _. tt;
  check = λ _ _. tt;
  set_pattern = λ _ _ _ _. tt;
  retry_pattern = λ _ _ _ _. tt;
}

-- The bootloader's pattern was never set, and no thread was started to set it.
abbrev pub NoPattern : Calls → Type 0
NoPattern [] = Unit
NoPattern (set_bootloader_pattern pattern ∷ log) = ⊥
NoPattern (start_pattern_retry pattern ∷ log) = ⊥
NoPattern (_ ∷ log) = NoPattern log

NoPattern-IsPortCall : (b : Bool) (call : Call) → IsPortCall b call → Stable NoPattern call
NoPattern-IsPortCall b (get_video_port t i) c log h = h
NoPattern-IsPortCall b (get_audio_port t i) c log h = h
NoPattern-IsPortCall b (is_audio_port_enabled handle) c log h = h
NoPattern-IsPortCall b get_device_setting_configs c log h = h
NoPattern-IsPortCall b force_eas_stereo c log h = h
NoPattern-IsPortCall b (enable_video_port handle enable) c log h = h
NoPattern-IsPortCall b (enable_audio_port handle enable) c log h = h
NoPattern-IsPortCall b _ c log h = absurd c

NoPattern-Admits : Admits NoPattern false
NoPattern-Admits = record {
  ports = NoPattern-IsPortCall;
  led = λ _ _ h. h;
  check = λ _ h. h;
  set_pattern = λ h. absurd (cc);
  retry_pattern = λ h. absurd (cc);
}

module _ (dev : Device) (names : PortNames) (led_sync_in_bootup : Bool) where
  -- Every sequence of operations on a product of the profile STB returns and never touches the
  -- bootloader's pattern.
  pub run_operations_stb :
      (ops : List Operation) (product : Product) (present : Bool)
      → product.ux ≡ construct stb present
      → Yields NoPattern NoPattern
          (λ q. q.ux.profile ≡ stb)
          (run_operations dev names led_sync_in_bootup ops product)
  run_operations_stb ops product present e =
      Yields-mono
        (run_operations_keeps dev names led_sync_in_bootup NoPattern false NoPattern-Admits ops
          product (ap (λ ux. ux.enable_silent_reboot_support) e))
        (λ q k. k.profile ∙ ap (λ ux. ux.profile) e)

  -- Once a TV has made a power state change, and after any operations that follow it, a reboot reason that
  -- is found late no longer acts: it makes no call and leaves the product as it is.
  pub run_operations_tv_decided :
      (in_eas : Bool) (new_state prev_state : PowerState) (ops : List Operation) (product : Product)
      → product.ux.profile ≡ tv
      → Yields Any Any
          (λ q.
            (in_eas : Bool) (reboot_type : RebootType)
            → sync_display_ports_with_reboot_reason dev names in_eas reboot_type q ≡ pure q)
          (run_operations dev names led_sync_in_bootup
            (power_state_change in_eas new_state prev_state ∷ ops)
            product)
  unfolding run_operations run_operation
  run_operations_tv_decided in_eas new_state prev_state ops product t =
      Yields-bind (change_decided) (λ q h.
        Yields-mono
          (run_operations_keeps dev names led_sync_in_bootup Any q.ux.enable_silent_reboot_support
            (Any-Admits _) ops q refl)
          (λ r k in_eas reboot_type.
            sync_display_ports_with_reboot_reason_decided dev names in_eas reboot_type r
              (k.decided h)))
    where
      change_decided :
          Yields Any Any
            (λ q. q.ux.first_power_transition_complete ≡ true)
            (run_operation dev names led_sync_in_bootup
              (power_state_change in_eas new_state prev_state)
              product)
      change_decided =
          Yields-bind
            (change_decides dev names led_sync_in_bootup in_eas Any
              product.ux.enable_silent_reboot_support (Any-Admits _) new_state prev_state product
              refl t)
            (λ r d. Yields-pure _ d)
