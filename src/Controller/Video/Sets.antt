-- ===== src/Controller/Video/Sets.antt =====
-- The resolutions that `SetVideoPortResolution` and `SetResolution` set.
use entservices_devicesettin.Prelude.{
  ℕ, suc, ◌≤◌, ◌≡◌, refl, ◌≢◌, ◌⊎◌, inl, inr, Bool, true, not, ◌||◌, List, [], ◌∷◌, Bytes, drop,
  Option-cases, ◌==◌, arith, ap,
}
use entservices_devicesettin.Device.{
  Device, Call, Calls, hdmi, error_none, VideoPortResolution, DisplayEdid,
  set_video_port_resolution, get_display_edid,
}
use entservices_devicesettin.Device.Log.{
  Ends, Leads, Leads-bind, Leads-if, Leads-pure, Leads-abort, Leads-tell, Leads-ask_then, Stable,
  Ensures-ask,
}
use entservices_devicesettin.Resolution.{parse_resolution}
use entservices_devicesettin.Resolution.Select.{
  Choice, fault, invalid, valid, is_res_in_edid, base_index, try_fallbacks, choose_resolution,
}
use entservices_devicesettin.Controller.{Controller}
use entservices_devicesettin.Controller.Video.{
  listed_names, set_chosen, set_choice, edid_arrives, set_hdmi_resolution, set_resolution,
  apply_video_port_resolution,
}
use entservices_devicesettin.Controller.Video.Footprint.{
  IsVideoQuery, apply_video_port_resolution-Leads,
}

-- How often a resolution was set.
abbrev pub resolution_sets : Calls → ℕ
resolution_sets [] = 0
resolution_sets (set_video_port_resolution handle res ∷ log) = suc (resolution_sets log)
resolution_sets (_ ∷ log) = resolution_sets log

abbrev pub HandlesSet : Calls → Type 0
HandlesSet [] = Unit
HandlesSet (set_video_port_resolution handle res ∷ log) = (handle ≢ 0) × HandlesSet log
HandlesSet (_ ∷ log) = HandlesSet log

abbrev pub Counted : ℕ → Calls → Type 0
Counted n log = (resolution_sets log ≡ n) × HandlesSet log

pub query-Counted : (n : ℕ) (call : Call) → IsVideoQuery call → Stable (Counted n) call
query-Counted n (set_video_port_resolution handle res) q log h = absurd q
query-Counted n _ q log h = h

-- One run sets a resolution at most once, and only on a port whose handle is not null.
pub apply_video_port_resolution_once :
    (dev : Device) (c : Controller) (log : Calls)
    → HandlesSet log
    → Ends
        (λ _ log'. (resolution_sets log' ≤ suc (resolution_sets log)) × HandlesSet log')
        (apply_video_port_resolution dev c log)
apply_video_port_resolution_once dev c log h =
    (apply_video_port_resolution-Leads dev c (Counted n)
        (λ l. (resolution_sets l ≤ suc n) × HandlesSet l) (query-Counted n)
        (λ handle res ne l k. (omega arith, (ne, k.1))) (λ l k. (omega arith, k.1))).at
      log (refl, h)
  where
    n : ℕ
    n = resolution_sets log

try_fallbacks-listed :
    (eu : Bool) (names table : List Bytes) (n : Bytes)
    → try_fallbacks eu names table ≡ valid n
    → is_res_in_edid names n ≡ true
unfolding try_fallbacks
try_fallbacks-listed eu names [] n h = absurd (cc)
try_fallbacks-listed eu names (r ∷ rest) n h = ground (arith, try_fallbacks-listed eu names rest n)

-- Whatever the platform, the table and the persisted name, a name that is set is in the EDID.
pub choose_resolution-listed :
    (eu : Bool) (table names : List Bytes) (name n : Bytes)
    → choose_resolution eu table names name ≡ valid n
    → is_res_in_edid names n ≡ true
unfolding choose_resolution
choose_resolution-listed eu table names name n h = elim (Option-cases (parse_resolution name)) [
  | inl e ↦ ground arith
  | inr (base, e) ↦
      let rest = drop (suc (base_index table base)) table in
      ground (arith, try_fallbacks-listed eu names rest n)
]

-- The last call set `name`, right after an EDID of an HDMI sink that lists it arrived.
abbrev pub SetListed : Device → ℕ → Calls → Type 0
SetListed dev handle log' =
    (display : ℕ) × (res : VideoPortResolution) × (log : Calls) × (log'
      ≡ set_video_port_resolution handle res ∷ get_display_edid display ∷ log)
    × ((dev.display_edid log display).value.hdmi_device_type ≡ true)
    × (is_res_in_edid (listed_names (dev.display_edid log display).value.names) res.name ≡ true)

module _ (dev : Device) (c : Controller) (handle n : ℕ) where
  abbrev Outcome : Calls → Type 0
  Outcome log = (resolution_sets log ≡ n) ⊎ SetListed dev handle log

  module _ (res : VideoPortResolution) (display : ℕ) (log : Calls)
      (count : resolution_sets log ≡ n) where
    abbrev Arrived : Calls → Type 0
    Arrived l = l ≡ get_display_edid display ∷ log

    abbrev sent : DisplayEdid
    sent = (dev.display_edid log display).value

    unset : (l : Calls) → Arrived l → Outcome l
    unset l e = inl (rw e count)

    set_choice-Outcome :
        (choice : Choice)
        → sent.hdmi_device_type ≡ true
        → ((m : Bytes) → choice ≡ valid m → is_res_in_edid (listed_names sent.names) m ≡ true)
        → Leads Arrived Outcome (set_choice dev c handle res choice)
    unfolding set_choice set_chosen
    set_choice-Outcome fault d k = Leads-abort
    set_choice-Outcome invalid d k = Leads-pure _ unset
    set_choice-Outcome (valid m) d k =
        Leads-if c.device_settings
          (λ _. Leads-tell _ (λ l e. inr (
            display,
            record res { name = m },
            log,
            ap (◌∷◌ (set_video_port_resolution handle (record res { name = m }))) e,
            d,
            k m refl,
          )))
          (λ _. Leads-pure _ unset)

    edid_arrives-Outcome :
        Leads Arrived Outcome (edid_arrives dev c handle res (dev.display_edid log display))
    unfolding edid_arrives
    edid_arrives-Outcome =
        Leads-if ((dev.display_edid log display).result == error_none)
          (λ _.
            Leads-if (sent.num_of_supported_resolution == 0 || not sent.hdmi_device_type)
              (λ _. Leads-pure _ unset)
              (λ e. set_choice-Outcome _ (ground arith) (λ m.
                choose_resolution-listed c.is_eu_platform c.fall_back_resolution_list
                  (listed_names sent.names) res.name m)))
          (λ _. Leads-pure _ unset)

  -- `SetResolution` for the HDMI port.
  set_resolution_hdmi-Outcome :
      Leads (λ l. resolution_sets l ≡ n) Outcome (set_resolution dev c handle hdmi)
  unfolding set_resolution
  set_resolution_hdmi-Outcome =
      Leads-if (handle == 0) (λ _. Leads-pure _ (λ l e. inl e))
        (λ _.
          Leads-if c.device_settings
            (λ _. Leads-bind (Ensures-ask _ _ (λ l e. e) (λ l. tt)) (λ p.
              Leads-if (p.result == error_none) (λ _. with_resolution p.value)
                (λ _. Leads-pure _ (λ l e. inl e))))
            (λ _. with_resolution _))
    where
      with_resolution :
          (res : VideoPortResolution)
          → Leads (λ l. resolution_sets l ≡ n) Outcome (set_hdmi_resolution dev c handle res)
      with_resolution res =
          Leads-if c.device_settings
            (λ _. Leads-bind (Ensures-ask _ _ (λ l e. e) (λ l. tt)) (λ d.
              Leads-if (not (d.result == error_none) || d.value == 0)
                (λ _. Leads-pure _ (λ l e. inl e))
                (λ _.
                  Leads-ask_then _ _ _ (λ l e. (edid_arrives-Outcome res d.value l e).at _ refl))))
            (λ _. Leads-pure _ (λ l e. inl e))

-- For the HDMI port no resolution is set, or the last call sets one that the EDID asked for just
-- before lists, and that EDID is of an HDMI sink, not of a DVI one.
pub set_resolution_hdmi_listed :
    (dev : Device) (c : Controller) (handle : ℕ) (log : Calls)
    → Ends
        (λ _ log'. (resolution_sets log' ≡ resolution_sets log) ⊎ SetListed dev handle log')
        (set_resolution dev c handle hdmi log)
set_resolution_hdmi_listed dev c handle log =
    (set_resolution_hdmi-Outcome dev c handle (resolution_sets log)).at log refl
