-- ===== src/Power/Standby/Laws.antt =====
-- Reading the standby table back.
use entservices_devicesettin.Prelude.{
  ℕ, zero, suc, ◌≤◌, ◌≡◌, ◌≢◌, refl, ◌⊎◌, Bool, true, false, [], ◌∷◌, Bytes, length, arith,
  if◌then◌else◌, take_all,
}
use entservices_devicesettin.Power.Standby.{
  Table, strncase_eq, is_empty, get_video_port_standby_setting, has_setting, update_setting,
  add_setting, store_standby_setting,
}

strncase_eq_self : (n : ℕ) (s : Bytes) → strncase_eq n s s ≡ true
unfolding strncase_eq
strncase_eq_self zero s = refl
strncase_eq_self (suc n) [] = refl
strncase_eq_self (suc n) (a ∷ s) = ground (arith, strncase_eq_self n s)

-- A slot is in use.
abbrev pub has_room : Table → Bool
has_room [] = false
has_room (e ∷ rest) = if is_empty e.port then true else has_room rest

get-update_setting :
    (table : Table) (name : Bytes) (enabled : Bool)
    → has_setting table name ≡ true
    → get_video_port_standby_setting (update_setting table name enabled) name ≡ enabled
unfolding has_setting update_setting get_video_port_standby_setting
get-update_setting [] name enabled h = absurd (cc)
get-update_setting (e ∷ rest) name enabled h = ground (arith, get-update_setting rest name enabled)

get-add_setting :
    (table : Table) (name : Bytes) (enabled : Bool)
    → length name ≤ 15
    → has_setting table name ≡ false
    → has_room table ≡ true
    → get_video_port_standby_setting (add_setting table name enabled) name ≡ enabled
unfolding has_setting add_setting get_video_port_standby_setting
get-add_setting [] name enabled l h r = absurd (cc)
get-add_setting (e ∷ rest) name enabled l h r =
    ground (arith, get-add_setting rest name enabled, take_all 15 name l, strncase_eq_self 16 name)

-- What was stored for a port is read back, for every port name that fits a slot, as long as the table
-- has a slot for it: one that names the port already, or an empty one.
pub get-store_standby_setting :
    (table : Table) (name : Bytes) (enabled : Bool)
    → length name ≤ 15
    → (has_setting table name ≡ true) ⊎ (has_room table ≡ true)
    → get_video_port_standby_setting (store_standby_setting table name enabled) name ≡ enabled
unfolding store_standby_setting
get-store_standby_setting table name enabled l r =
    ground (arith, get-update_setting table name enabled, get-add_setting table name enabled)

strncase_eq_join :
    (n : ℕ) (s t u : Bytes)
    → strncase_eq n s u ≡ true
    → strncase_eq n t u ≡ true
    → strncase_eq n s t ≡ true
unfolding strncase_eq
strncase_eq_join zero s t u h k = refl
strncase_eq_join (suc n) [] [] u h k = refl
strncase_eq_join (suc n) [] (b ∷ t) [] h k = k
strncase_eq_join (suc n) [] (b ∷ t) (c ∷ u) h k = h
strncase_eq_join (suc n) (a ∷ s) [] [] h k = h
strncase_eq_join (suc n) (a ∷ s) [] (c ∷ u) h k = absurd (cc)
strncase_eq_join (suc n) (a ∷ s) (b ∷ t) [] h k = absurd (cc)
strncase_eq_join (suc n) (a ∷ s) (b ∷ t) (c ∷ u) h k = ground (arith, strncase_eq_join n s t u)

strncase_eq_nil : (s : Bytes) → s ≢ [] → strncase_eq 16 s [] ≡ false
unfolding strncase_eq
strncase_eq_nil [] h = absurd (h refl)
strncase_eq_nil (a ∷ s) h = refl

strncase_eq_empty : (s port : Bytes) → s ≢ [] → is_empty port ≡ true → strncase_eq 16 s port ≡ false
strncase_eq_empty s [] n h = strncase_eq_nil s n
strncase_eq_empty s (c ∷ port) n h = absurd (cc)

get-update_other :
    (table : Table) (name other : Bytes) (enabled : Bool)
    → strncase_eq 16 other name ≡ false
    → get_video_port_standby_setting (update_setting table name enabled) other
      ≡ get_video_port_standby_setting table other
unfolding update_setting get_video_port_standby_setting
get-update_other [] name other enabled d = refl
get-update_other (e ∷ rest) name other enabled d =
    ground
      (arith, get-update_other rest name other enabled d, strncase_eq_join 16 other name e.port)

get-add_other :
    (table : Table) (name other : Bytes) (enabled : Bool)
    → length name ≤ 15
    → other ≢ []
    → strncase_eq 16 other name ≡ false
    → get_video_port_standby_setting (add_setting table name enabled) other
      ≡ get_video_port_standby_setting table other
unfolding add_setting get_video_port_standby_setting
get-add_other [] name other enabled l n d = refl
get-add_other (e ∷ rest) name other enabled l n d = ground (
  arith,
  get-add_other rest name other enabled l n d,
  take_all 15 name l,
  strncase_eq_empty other e.port n,
)

-- Storing the setting of one port leaves what is read for every port of another name.
pub get-store_other :
    (table : Table) (name other : Bytes) (enabled : Bool)
    → length name ≤ 15
    → other ≢ []
    → strncase_eq 16 other name ≡ false
    → get_video_port_standby_setting (store_standby_setting table name enabled) other
      ≡ get_video_port_standby_setting table other
unfolding store_standby_setting
get-store_other table name other enabled l n d = ground (
  arith,
  get-update_other table name other enabled d,
  get-add_other table name other enabled l n d,
)

add_setting_full :
    (table : Table) (name : Bytes) (enabled : Bool)
    → has_room table ≡ false
    → add_setting table name enabled ≡ table
unfolding add_setting
add_setting_full [] name enabled r = refl
add_setting_full (e ∷ rest) name enabled r = ground (arith, add_setting_full rest name enabled)

-- With every slot taken by another port, a setting is dropped: the table does not change.
pub store_standby_setting_full :
    (table : Table) (name : Bytes) (enabled : Bool)
    → has_setting table name ≡ false
    → has_room table ≡ false
    → store_standby_setting table name enabled ≡ table
unfolding store_standby_setting
store_standby_setting_full table name enabled h r =
    ground (arith, add_setting_full table name enabled r)
