-- ===== src/Fpd/Service.antt =====
-- plugin/DeviceSettingsFPDImplementation.cpp: the operations of the interface IDeviceSettingsFPD, and the
-- clients that it notifies. The locks serialize the operations, which the model runs one at a time.
pub mod Clients
pub mod Requests
use entservices_devicesettin.Prelude.{
  ℕ, ◌+◌, ◌-◌, Bool, true, false, List, [], ◌∷◌, ◌++◌, map, Bytes, ◌==◌, if◌then◌else◌,
}
use entservices_devicesettin.Device.{error_none, error_general}
use entservices_devicesettin.Fpd.{Constants, Host, PanelState, Panel}
use entservices_devicesettin.Fpd.Component.{
  passes_deprecated, passes_set_brightness, passes_get_brightness, passes_set_state,
  passes_get_state, passes_get_color, passes_set_color, passes_set_mode,
}

-- The result of the component, made an ERROR_NONE or an ERROR_GENERAL.
abbrev pub answer : {A W : Type 0} → (ℕ × A) × Panel W → (ℕ × A) × Panel W
answer ((result, a), p) = ((if result == error_none then error_none else error_general, a), p)

module _ (k : Constants) {W : Type 0} (host : Host W) (platform : Bool) where
  -- SetFPDTime and SetFPDScroll do nothing and succeed.
  unfoldable pub stub : Panel W → (ℕ × Unit {0}) × Panel W
  stub p = ((error_none, tt), p)

  -- SetFPDTextBrightness, GetFPDTextBrightness, EnableFPDClockDisplay, GetFPDTimeFormat,
  -- SetFPDTimeFormat and SetFPDBlink.
  unfoldable pub refused : {A : Type 0} → A → Panel W → (ℕ × A) × Panel W
  refused a p = answer (passes_deprecated k host platform a p)

  unfoldable pub service_set_brightness : ℕ → ℕ → Bool → Panel W → (ℕ × Unit {0}) × Panel W
  service_set_brightness indicator brightness persist p =
      answer (passes_set_brightness k host platform indicator brightness persist p)

  unfoldable pub service_get_brightness : ℕ → ℕ → Bool → Panel W → (ℕ × ℕ) × Panel W
  service_get_brightness indicator brightness persist p =
      answer (passes_get_brightness k host platform indicator brightness persist p)

  unfoldable pub service_set_state : ℕ → PanelState → Panel W → (ℕ × Unit {0}) × Panel W
  service_set_state indicator state p = answer (passes_set_state k host platform indicator state p)

  unfoldable pub service_get_state : ℕ → PanelState → Panel W → (ℕ × PanelState) × Panel W
  service_get_state indicator state p = answer (passes_get_state k host platform indicator state p)

  unfoldable pub service_get_color : ℕ → ℕ → Panel W → (ℕ × ℕ) × Panel W
  service_get_color indicator color p = answer (passes_get_color k host platform indicator color p)

  unfoldable pub service_set_color : ℕ → ℕ → Panel W → (ℕ × Unit {0}) × Panel W
  service_set_color indicator color p = answer (passes_set_color k host platform indicator color p)

  unfoldable pub service_set_mode : ℕ → Panel W → (ℕ × Unit {0}) × Panel W
  service_set_mode mode p = answer (passes_set_mode k host platform mode p)

-- A client's name and the address of its notification object.
abbrev pub Client : Type 0
Client = Bytes × ℕ

-- std::find_if over the addresses.
unfoldable pub is_registered : List Client → ℕ → Bool
is_registered [] notification = false
is_registered (c ∷ cs) notification =
    if c.1 == notification then true else is_registered cs notification

-- The reference counts of the notification objects, by address.
abbrev pub References : Type 0
References = ℕ → ℕ

abbrev pub changed : References → ℕ → (ℕ → ℕ) → References
changed refs notification f n = if n == notification then f (refs n) else refs n

-- The list _FPDNotifications, and the counts.
pub record Registry : Type 0 where
  pub clients : List Client
  pub references : References

abbrev pub registered : Bytes → ℕ → Registry → Registry
registered name notification r = record {
  clients = r.clients ++ ((name, notification) ∷ []);
  references = changed r.references notification (λ n. n + 1);
}

-- A second registration of an object is refused.
unfoldable pub register : Bytes → ℕ → Registry → ℕ × Registry
register name notification r =
    if is_registered r.clients notification
    then (error_general, r)
    else (error_none, registered name notification r)

unfoldable pub erase_client : List Client → ℕ → List Client
erase_client [] notification = []
erase_client (c ∷ cs) notification =
    if c.1 == notification then cs else c ∷ erase_client cs notification

abbrev pub unregistered : ℕ → Registry → Registry
unregistered notification r = record {
  clients = erase_client r.clients notification;
  references = changed r.references notification (λ n. n - 1);
}

unfoldable pub unregister : ℕ → Registry → ℕ × Registry
unregister notification r =
    if is_registered r.clients notification
    then (error_none, unregistered notification r)
    else (error_general, r)

-- AddRef on each client.
add_refs : List Client → References → References
add_refs [] refs = refs
add_refs (c ∷ cs) refs = add_refs cs (changed refs c.1 (λ n. n + 1))

-- Each client is called, and then released.
notify_all : List Client → References → List ℕ × References
notify_all [] refs = ([], refs)
notify_all (c ∷ cs) refs =
    let r : List ℕ × References = notify_all cs (changed refs c.1 (λ n. n - 1)) in (c.1 ∷ r.0, r.1)

-- dispatchFPDEvent, which OnFPDTimeFormatChanged calls: the objects that were called, in order.
unfoldable pub dispatch_fpd_event : Registry → List ℕ × Registry
unfolding add_refs notify_all
dispatch_fpd_event r =
    let n : List ℕ × References = notify_all r.clients (add_refs r.clients r.references) in
    (n.0, record r { references = n.1 })
