-- ===== src/Resolution/Fallback.antt =====
-- What the fall-back of `SetResolution` can end in: a lower entry of the table, or an abort.
use entservices_devicesettin.Prelude.{
  ℕ, zero, suc, ◌≤◌, ◌≡◌, ◌&&◌, refl, ◌≢◌, ◌⊎◌, ◌↔◌, inl, inr, Bool, true, false, none, some, List,
  [], ◌∷◌, Bytes, get_elem?, drop, arith, Bool-cases, Option-cases,
}
use entservices_devicesettin.Resolution.{
  parse_resolution, get_secondary_resolution, get_fallback_resolution,
}
use entservices_devicesettin.Resolution.Select.{
  fault, valid, is_res_in_edid, base_index, try_fallbacks, choose_resolution,
}

-- `n` is written for an entry of `table` at position `i` or later.
abbrev pub FromEntry : List Bytes → ℕ → Bytes → Type 0
FromEntry table i n =
    (j : ℕ) × (r : Bytes) × (i ≤ j)
    × (get_elem? table j ≡ some r)
    × ((n ≡ get_fallback_resolution r true) ⊎ (n ≡ get_fallback_resolution r false))

FromEntry-drop :
    (table : List Bytes) (i : ℕ) (n : Bytes) → FromEntry (drop i table) 0 n → FromEntry table i n
FromEntry-drop table zero n m = m
FromEntry-drop [] (suc i) n (j, r, p, e, w) = absurd (cc)
FromEntry-drop (x ∷ table) (suc i) n m =
    let (j, r, p, e, w) = FromEntry-drop table i n m in (suc j, r, omega arith, e, w)

try_fallbacks-FromEntry :
    (eu : Bool) (names table : List Bytes) (n : Bytes)
    → try_fallbacks eu names table ≡ valid n
    → FromEntry table 0 n
unfolding try_fallbacks
try_fallbacks-FromEntry eu names [] n h = absurd (cc)
try_fallbacks-FromEntry eu names (r ∷ rest) n h =
    elim (Bool-cases (eu && is_res_in_edid names (get_fallback_resolution r true))) [
      | inl a ↦ (0, r, omega arith, refl, inl (ground arith))
      | inr a ↦ elim (Bool-cases (is_res_in_edid names (get_fallback_resolution r false))) [
        | inl b ↦ (0, r, omega arith, refl, inr (ground arith))
        | inr b ↦
            let (j, r', p, e, w) = try_fallbacks-FromEntry eu names rest n (ground arith) in
            (suc j, r', omega arith, e, w)
      ]
    ]

try_fallbacks-drop :
    (eu : Bool) (names table : List Bytes) (i : ℕ) (n : Bytes)
    → try_fallbacks eu names (drop i table) ≡ valid n
    → FromEntry table i n
try_fallbacks-drop eu names table i n h =
    FromEntry-drop table i n (try_fallbacks-FromEntry eu names (drop i table) n h)

-- A name that is set is the persisted one, or on a European platform its 60 Hz relative, or it is
-- made from an entry of the table that stands behind the entry of the persisted name's base.
pub choose_resolution-valid_origin :
    (eu : Bool) (table names : List Bytes) (name base n : Bytes)
    → parse_resolution name ≡ some base
    → choose_resolution eu table names name ≡ valid n
    → (n ≡ name)
      ⊎ ((eu ≡ true) × (get_secondary_resolution name ≡ some n))
      ⊎ FromEntry table (suc (base_index table base)) n
unfolding choose_resolution
choose_resolution-valid_origin eu table names name base n p h =
    ground (arith, try_fallbacks-drop eu names table (suc (base_index table base)) n)

try_fallbacks-ne-fault :
    (eu : Bool) (names table : List Bytes) → try_fallbacks eu names table ≢ fault
unfolding try_fallbacks
try_fallbacks-ne-fault eu names [] h = cc
try_fallbacks-ne-fault eu names (r ∷ rest) h = ground (arith, try_fallbacks-ne-fault eu names rest)

-- The search aborts exactly when the persisted name has no base name and neither it nor, on a
-- European platform, its 60 Hz relative is in the EDID.
pub choose_resolution-fault_iff :
    (eu : Bool) (table names : List Bytes) (name : Bytes)
    → (choose_resolution eu table names name ≡ fault) ↔ (
        (parse_resolution name ≡ none)
        × (is_res_in_edid names name ≡ false)
        × ((n : Bytes)
            → eu ≡ true
            → get_secondary_resolution name ≡ some n
            → is_res_in_edid names n ≡ false))
unfolding choose_resolution
choose_resolution-fault_iff eu table names name = (forth, back)
  where
    below :
        (base : Bytes) → try_fallbacks eu names (drop (suc (base_index table base)) table) ≢ fault
    below base = try_fallbacks-ne-fault eu names (drop (suc (base_index table base)) table)

    forth :
        choose_resolution eu table names name ≡ fault
        → (parse_resolution name ≡ none)
          × (is_res_in_edid names name ≡ false)
          × ((n : Bytes)
              → eu ≡ true
              → get_secondary_resolution name ≡ some n
              → is_res_in_edid names n ≡ false)
    forth h = elim (Option-cases (parse_resolution name)) [
      | inl p ↦ (p, ground arith, λ n e s. ground arith)
      | inr (base, p) ↦ absurd (ground (arith, below base))
    ]

    back :
        (parse_resolution name ≡ none)
          × (is_res_in_edid names name ≡ false)
          × ((n : Bytes)
              → eu ≡ true
              → get_secondary_resolution name ≡ some n
              → is_res_in_edid names n ≡ false)
        → choose_resolution eu table names name ≡ fault
    back (p, q, r) = elim (Option-cases (get_secondary_resolution name)) [
      | inl s ↦ ground arith
      | inr (n, s) ↦ ground (arith, r n)
    ]
