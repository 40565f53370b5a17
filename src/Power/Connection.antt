-- ===== src/Power/Connection.antt =====
-- plugin/DSPwrEventListener.cpp: the connection with the power manager: `InitializePowerManager`,
-- `registerPowerEventHandler` and `PwrRetryEstablishConnThread`.
use entservices_devicesettin.Prelude.{
  ℕ, zero, suc, ◌≡◌, refl, Bool, true, false, not, ◌&&◌, Option, none, some, List, [], ◌∷◌, ◌++◌,
  ◌==◌, if◌then◌else◌, Bool-cases, inl, inr,
}
use entservices_devicesettin.Device.{Reply, error_none}
use entservices_devicesettin.Power.{PowerState}

-- `plugin`: _powerManagerPlugin holds an interface. `registrations` counts the calls of Register.
pub record Connection : Type 0 where
  pub plugin : Bool
  pub registered : Bool
  pub cur_state : PowerState
  pub registrations : ℕ

-- What one try to create the interface finds: no interface, or one with its answer to GetPowerState.
pub data Attempt : Type 0 where
  no_interface : Attempt
  interface_with : Reply PowerState → Attempt

unfoldable pub register_power_event_handler : Connection → Connection
register_power_event_handler c =
    if not c.registered && c.plugin
    then record c { registered = true; registrations = suc c.registrations }
    else c

abbrev answered : Reply PowerState → Connection → Connection
answered r c = if r.result == error_none then record c { cur_state = r.value } else c

unfoldable pub initialize_power_manager : Attempt → Connection → Connection
unfolding register_power_event_handler
initialize_power_manager no_interface c = register_power_event_handler (record c { plugin = false })
initialize_power_manager (interface_with r) c =
    answered r (register_power_event_handler (record c { plugin = true }))

abbrev is_connected : Connection → Bool
is_connected c = c.plugin && c.registered

-- The loop of the thread, on the tries as they come; `none`: it still tries. With the connection comes
-- the number of tries made.
unfoldable pub establish_connection : List Attempt → Connection → Option (Connection × ℕ)
establish_connection [] c = if is_connected c then some (c, 0) else none
establish_connection (attempt ∷ attempts) c =
    let rest = establish_connection attempts (initialize_power_manager attempt c) in
    if is_connected c
    then some (c, 0)
    else elim rest [ none ↦ none | some (d, n) ↦ some (d, suc n) ]

-- The number of tries that find no interface, before the first that does.
abbrev pub failures : ℕ → List Attempt
failures zero = []
failures (suc n) = no_interface ∷ failures n

-- No interface yet, and not registered.
abbrev pub unconnected : PowerState → ℕ → Connection
unconnected state registrations = record {
  plugin = false;
  registered = false;
  cur_state = state;
  registrations = registrations;
}

first_answer :
    (r : Reply PowerState) (attempts : List Attempt) (state : PowerState) (m : ℕ)
    → establish_connection attempts
        (initialize_power_manager (interface_with r) (unconnected state m))
      ≡ some (
        record {
          plugin = true;
          registered = true;
          cur_state = if r.result == error_none then r.value else state;
          registrations = suc m;
        },
        0,
      )
unfolding establish_connection initialize_power_manager register_power_event_handler
first_answer r [] state m = elim (Bool-cases (r.result == error_none)) [
  | inl e ↦ rw e refl
  | inr e ↦ rw e refl
]
first_answer r (a ∷ attempts) state m = elim (Bool-cases (r.result == error_none)) [
  | inl e ↦ rw e refl
  | inr e ↦ rw e refl
]

-- A listener that is not registered yet is connected by the first try that finds the interface, and by
-- none before it, however many there were; the handler is registered once, and the current state is the
-- answer of that try, or still the old one if the question failed.
pub establish_connection_first :
    (n : ℕ) (r : Reply PowerState) (later : List Attempt) (state : PowerState) (m : ℕ)
    → establish_connection (failures n ++ (interface_with r ∷ later)) (unconnected state m)
      ≡ some (
        record {
          plugin = true;
          registered = true;
          cur_state = if r.result == error_none then r.value else state;
          registrations = suc m;
        },
        suc n,
      )
unfolding establish_connection initialize_power_manager register_power_event_handler
establish_connection_first zero r later state m = rw (first_answer r later state m) refl
establish_connection_first (suc n) r later state m =
    rw (establish_connection_first n r later state m) refl
