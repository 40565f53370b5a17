-- ===== src/Power/Standby.antt =====
-- plugin/DSPwrEventListener.cpp: the table _standbyVideoPortSetting, which says for a video port by
-- its name whether it stays enabled in standby. Names are compared without regard to case.
pub mod Laws
use entservices_devicesettin.Prelude.{
  ℕ, zero, suc, ◌+◌, Bool, true, false, ◌&&◌, List, [], ◌∷◌, Bytes, take, leb, ◌==◌, if◌then◌else◌,
}

abbrev pub max_num_video_ports : ℕ
max_num_video_ports = 5

abbrev pub max_video_port_name_length : ℕ
max_video_port_name_length = 16

-- `port` is empty in a slot that is not in use.
pub record StandbySetting : Type 0 where
  pub port : Bytes
  pub is_enabled : Bool

abbrev pub Table : Type 0
Table = List StandbySetting

unfoldable pub to_lower : ℕ → ℕ
to_lower c = if leb b'A' c && leb c b'Z' then c + 32 else c

-- strncasecmp(s, t, n) == 0
unfoldable pub strncase_eq : ℕ → Bytes → Bytes → Bool
strncase_eq zero s t = true
strncase_eq (suc n) [] [] = true
strncase_eq (suc n) [] (b ∷ t) = false
strncase_eq (suc n) (a ∷ s) [] = false
strncase_eq (suc n) (a ∷ s) (b ∷ t) = to_lower a == to_lower b && strncase_eq n s t

abbrev pub names_port : Bytes → StandbySetting → Bool
names_port name setting = strncase_eq max_video_port_name_length name setting.port

unfoldable pub get_video_port_standby_setting : Table → Bytes → Bool
get_video_port_standby_setting [] name = false
get_video_port_standby_setting (e ∷ rest) name =
    if names_port name e then e.is_enabled else get_video_port_standby_setting rest name

abbrev pub is_empty : Bytes → Bool
is_empty [] = true
is_empty (c ∷ s) = false

-- The first loop of SetStandbyVideoState ends at a slot.
unfoldable pub has_setting : Table → Bytes → Bool
has_setting [] name = false
has_setting (e ∷ rest) name = if names_port name e then true else has_setting rest name

unfoldable pub update_setting : Table → Bytes → Bool → Table
update_setting [] name enabled = []
update_setting (e ∷ rest) name enabled =
    if names_port name e
    then record e { is_enabled = enabled } ∷ rest
    else e ∷ update_setting rest name enabled

-- The second loop; a table without an empty slot stays as it is.
unfoldable pub add_setting : Table → Bytes → Bool → Table
add_setting [] name enabled = []
add_setting (e ∷ rest) name enabled =
    if is_empty e.port
    then record { port = take 15 name; is_enabled = enabled } ∷ rest
    else e ∷ add_setting rest name enabled

-- The part of SetStandbyVideoState that writes the table.
unfoldable pub store_standby_setting : Table → Bytes → Bool → Table
store_standby_setting table name enabled =
    if has_setting table name
    then update_setting table name enabled
    else add_setting table name enabled
