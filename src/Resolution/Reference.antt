-- ===== src/Resolution/Reference.antt =====
-- The choice of a resolution against an independent description: the first supported entry of a list
-- of candidates in order of preference.
use entservices_devicesettin.Prelude.{
  suc, ◌≡◌, refl, Bool, true, false, Option, none, some, List, [], ◌∷◌, ◌++◌, Bytes, drop, arith,
  if◌then◌else◌,
}
use entservices_devicesettin.Resolution.{
  parse_resolution, get_secondary_resolution, get_fallback_resolution,
}
use entservices_devicesettin.Resolution.Select.{
  Choice, invalid, valid, is_res_in_edid, base_index, try_fallbacks, choose_resolution,
}

-- Each entry of the table, at the European rate first on a European platform.
pub fallback_candidates : Bool → List Bytes → List Bytes
fallback_candidates eu [] = []
fallback_candidates eu (r ∷ rest) =
    let later = get_fallback_resolution r false ∷ fallback_candidates eu rest in
    if eu then get_fallback_resolution r true ∷ later else later

abbrev optional : Option Bytes → List Bytes
optional none = []
optional (some n) = n ∷ []

-- The persisted name, its 60 Hz relative on a European platform, then what stands behind `base`.
pub candidates : Bool → List Bytes → Bytes → Bytes → List Bytes
candidates eu table name base =
    name ∷ (if eu then optional (get_secondary_resolution name) else [])
    ++ fallback_candidates eu (drop (suc (base_index table base)) table)

pub first_supported : List Bytes → List Bytes → Choice
first_supported names [] = invalid
first_supported names (n ∷ rest) =
    if is_res_in_edid names n then valid n else first_supported names rest

pub try_fallbacks-first_supported :
    (eu : Bool) (names table : List Bytes)
    → try_fallbacks eu names table ≡ first_supported names (fallback_candidates eu table)
unfolding try_fallbacks first_supported fallback_candidates
try_fallbacks-first_supported eu names [] = refl
try_fallbacks-first_supported eu names (r ∷ rest) =
    ground (arith, try_fallbacks-first_supported eu names rest)

-- Where the persisted name has a base name, the name that is set is the first candidate that the
-- EDID lists, and no name is set exactly when the EDID lists none of them.
pub choose_resolution-first_supported :
    (eu : Bool) (table names : List Bytes) (name base : Bytes)
    → parse_resolution name ≡ some base
    → choose_resolution eu table names name ≡ first_supported names (candidates eu table name base)
unfolding choose_resolution first_supported candidates
choose_resolution-first_supported eu table names name base h =
    ground
      (arith, try_fallbacks-first_supported eu names (drop (suc (base_index table base)) table))
