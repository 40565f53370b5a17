-- ===== src/Tests/Force.antt =====
-- The refusal of 4K on a HAL that holds it, for every port at once, beside its properties.
use entservices_devicesettin.Prelude.{
  ◌≡◌, refl, Bool, true, false, [], ◌∷◌, Bytes, codes, str_eq, if◌then◌else◌,
}
use entservices_devicesettin.Device.{error_none}
use entservices_devicesettin.VideoPort.{Hal, static_values}
use entservices_devicesettin.VideoPort.Cache.{get_persistence_value}
use entservices_devicesettin.VideoPort.Force.{
  set_force_disable_4k, get_force_disable_4k, HoldsForce, set_force_disable_4k-restarted,
}
use entservices_devicesettin.VideoPort.Operations.Restart.{Persists}
use entservices_devicesettin.Tests.Video.{
  World, lookup, sample_hal, near, sample_constants, sample_ports, sample-Persists,
}

-- The entry in which the HAL holds the refusal.
abbrev held_key : Bytes
held_key = codes "hal"

abbrev force_hal : Hal World
force_hal = record (sample_hal true near) {
  force_disable_4k = λ handle w. ((0, str_eq (lookup held_key [] w.0) (codes "on")), w);
  set_force_disable_4k =
      λ handle flag w. (0, ((held_key, if flag then codes "on" else []) ∷ w.0, w.1));
}

holds_force : HoldsForce force_hal 4096
unfolding str_eq
holds_force = record { is_hdmi = λ w. refl; sets = λ flag w. refl; force_after = after }
  where
    after :
        (flag : Bool) (w : World)
        → (force_hal.force_disable_4k 4096 (force_hal.set_force_disable_4k 4096 flag w).1).0
          ≡ (0, flag)
    after true w = refl
    after false w = refl

force-Persists : Persists force_hal
force-Persists = record {
  persists = (sample-Persists true near).persists;
  get_same = (sample-Persists true near).get_same;
  get_other = (sample-Persists true near).get_other;
}

set_force_disable_4k-restarted_example :
    ((set_force_disable_4k force_hal 4096 true sample_ports).0 ≡ error_none)
    × ((get_force_disable_4k force_hal 4096 (
          get_persistence_value sample_constants force_hal
            (static_values [] (set_force_disable_4k force_hal 4096 true sample_ports).1.world))).0
        ≡ (error_none, true))
set_force_disable_4k-restarted_example =
    set_force_disable_4k-restarted sample_constants force_hal 4096 holds_force force-Persists
      sample_ports [] (set_force_disable_4k force_hal 4096 true sample_ports).1.world
      (record { same = λ key default. refl; reads = λ key default. (lookup key default _, refl) })
