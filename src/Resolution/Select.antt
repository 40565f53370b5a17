-- ===== src/Resolution/Select.antt =====
-- plugin/DSController.cpp, the part of `SetResolution` that picks a name for the HDMI port.
use entservices_devicesettin.Prelude.{
  ℕ, suc, ◌+◌, Bool, true, false, ◌&&◌, ◌||◌, Option, none, some, List, [], ◌∷◌, Bytes, str_eq,
  drop, if◌then◌else◌,
}
use entservices_devicesettin.Resolution.{
  parse_resolution, get_secondary_resolution, get_fallback_resolution,
}

-- std::set<std::string>::count over the names of the EDID's iterator.
unfoldable pub count_name : List Bytes → Bytes → Bool
unfolding str_eq
count_name [] name = false
count_name (n ∷ names) name = str_eq n name || count_name names name

-- The loop that fills `edidSupportedNames`: empty names are left out.
unfoldable pub insert_names : List Bytes → List Bytes
insert_names [] = []
insert_names ([] ∷ rest) = insert_names rest
insert_names ((c ∷ s) ∷ rest) = (c ∷ s) ∷ insert_names rest

-- The lambda `isResInEdid`.
unfoldable pub is_res_in_edid : List Bytes → Bytes → Bool
unfolding count_name
is_res_in_edid names [] = false
is_res_in_edid names (c ∷ s) = count_name names (c ∷ s)

-- What the search ends in: an abort of the process (the null pointer of `parseResolution`), no valid
-- resolution, or the name to set.
pub data Choice : Type 0 where
  fault : Choice
  invalid : Choice
  valid : Bytes → Choice

-- The position of the base name in the table, 0 if it is not there.
index_from : ℕ → List Bytes → Bytes → ℕ
index_from i [] base = 0
index_from i (r ∷ rest) base = if str_eq r base then i else index_from (i + 1) rest base

unfoldable pub base_index : List Bytes → Bytes → ℕ
unfolding index_from str_eq
base_index table base = index_from 0 table base

-- The second loop: the entries behind the index, each at the European rate first where that applies.
unfoldable pub try_fallbacks : Bool → List Bytes → List Bytes → Choice
try_fallbacks eu names [] = invalid
try_fallbacks eu names (r ∷ rest) =
    let eu_res = get_fallback_resolution r true in
    let default_res = get_fallback_resolution r false in
    if eu && is_res_in_edid names eu_res
    then valid eu_res
    else if is_res_in_edid names default_res
    then valid default_res
    else try_fallbacks eu names rest

fall_back : Bool → List Bytes → List Bytes → Bytes → Choice
fall_back eu table names name = elim (parse_resolution name) [
  | none ↦ fault
  | some base ↦ try_fallbacks eu names (drop (suc (base_index table base)) table)
]

try_secondary : Bool → List Bytes → List Bytes → Bytes → Option Bytes → Choice
unfolding fall_back
try_secondary eu table names name none = fall_back eu table names name
try_secondary eu table names name (some second) =
    if is_res_in_edid names second then valid second else fall_back eu table names name

-- From the user's persisted name to the name that is set.
unfoldable pub choose_resolution : Bool → List Bytes → List Bytes → Bytes → Choice
unfolding try_secondary
choose_resolution eu table names name =
    if is_res_in_edid names name
    then valid name
    else if eu
    then try_secondary eu table names name (get_secondary_resolution name)
    else try_secondary eu table names name none
