-- ===== src/Resolution/Names.antt =====
-- What the functions on resolution names return.
use entservices_devicesettin.Prelude.{
  ℕ, zero, suc, ◌+◌, ◌-◌, ◌≤◌, ◌<◌, ◌≡◌, refl, ◌↔◌, ap, Bool, true, false, Option, none, some, [],
  ◌∷◌, ◌++◌, Bytes, codes, strchr, append_within, length, take, All, All-get_elem?, get_elem?,
  str_eq, ◌≢◌, arith, length-take-le, take_all, length-append_within-lt, Bool-cases, inl, inr,
}
use entservices_devicesettin.Resolution.{
  res_max_len, eu_progressive_fps, eu_interlaced_fps, default_progressive_fps, is_scan,
  print_within, skip_scan, until_scan, token_of, strtok_scan, append_scan, parse_resolution,
  parse_token, get_fallback_resolution, setup_platform_config,
}

-- No byte is one of the delimiters.
abbrev pub IsPlain : Bytes → Type 0
IsPlain = All (λ c. is_scan c ≡ false)

abbrev pub IsScans : Bytes → Type 0
IsScans = All (λ c. is_scan c ≡ true)

skip_scan-nil : (s : Bytes) → IsScans s → skip_scan s ≡ []
unfolding skip_scan
skip_scan-nil [] h = refl
skip_scan-nil (c ∷ s) h = ground (arith, skip_scan-nil s h.1)

IsScans-of_skip_scan : (s : Bytes) → skip_scan s ≡ [] → IsScans s
unfolding skip_scan
IsScans-of_skip_scan [] h = tt
IsScans-of_skip_scan (c ∷ s) h = elim (Bool-cases (is_scan c)) [
  | inl e ↦ (e, IsScans-of_skip_scan s (ground arith))
  | inr e ↦ absurd (ground arith)
]

strtok_scan-none_iff : (s : Bytes) → (strtok_scan s ≡ none) ↔ IsScans s
unfolding strtok_scan
strtok_scan-none_iff s = (λ h. forth (skip_scan s) refl h, λ h. rw (skip_scan-nil s h) refl)
  where
    forth : (t : Bytes) → skip_scan s ≡ t → token_of t ≡ none → IsScans s
    forth [] e h = IsScans-of_skip_scan s e
    forth (c ∷ t) e h = absurd (cc)

parse_token-none : (name : Bytes) (o : Option Bytes) → parse_token name o ≡ none → o ≡ none
unfolding parse_token
parse_token-none name none h = refl
parse_token-none name (some token) h = absurd (cc)

-- `parseResolution` dereferences the null pointer exactly when the first 63 bytes of the name are all
-- `i` or `p`, the empty name included.
pub parse_resolution-none_iff :
    (name : Bytes) → (parse_resolution name ≡ none) ↔ IsScans (take (res_max_len - 1) name)
unfolding parse_resolution
parse_resolution-none_iff name =
    let both = strtok_scan-none_iff (take 63 name) in
    (λ h. both.0 (parse_token-none name _ h), λ h. ap (parse_token name) (both.1 h))

length-until_scan-le : (s : Bytes) → length (until_scan s) ≤ length s
unfolding until_scan
length-until_scan-le [] = omega arith
length-until_scan-le (c ∷ s) = ground (arith, length-until_scan-le s)

length-skip_scan-le : (s : Bytes) → length (skip_scan s) ≤ length s
unfolding skip_scan
length-skip_scan-le [] = omega arith
length-skip_scan-le (c ∷ s) = ground (arith, length-skip_scan-le s)

until_scan_plain :
    (d r : Bytes) (c : ℕ) → IsPlain d → is_scan c ≡ true → until_scan (d ++ c ∷ r) ≡ d
unfolding until_scan
until_scan_plain [] r c p h = ground arith
until_scan_plain (x ∷ d) r c p h = ground (arith, until_scan_plain d r c p.1 h)

take_plain :
    (n k : ℕ) (d r : Bytes) (c : ℕ) → n ≡ length d + suc k → take n (d ++ c ∷ r) ≡ d ++ c ∷ take k r
take_plain zero k d r c h = absurd (omega arith)
take_plain (suc n) k [] r c h = let e : n ≡ k = omega arith in rw e refl
take_plain (suc n) k (x ∷ d) r c h = ap (◌∷◌ x) (take_plain n k d r c (omega arith))

skip_scan_plain : (x : ℕ) (d r : Bytes) → is_scan x ≡ false → skip_scan (x ∷ d ++ r) ≡ x ∷ d ++ r
unfolding skip_scan
skip_scan_plain x d r h = ground arith

-- The token of a name d + scan letter + rate.
strtok_scan_plain :
    (x : ℕ) (d r : Bytes) (c : ℕ)
    → IsPlain (x ∷ d)
    → is_scan c ≡ true
    → strtok_scan ((x ∷ d) ++ c ∷ r) ≡ some (x ∷ d)
unfolding strtok_scan
strtok_scan_plain x d r c p h =
    rw (skip_scan_plain x d (c ∷ r) p.0) (ap some (until_scan_plain (x ∷ d) r c p h))

strchr_plain : (d r : Bytes) (c : ℕ) → IsPlain d → is_scan c ≡ true → strchr (d ++ r) c ≡ strchr r c
unfolding strchr
strchr_plain [] r c p h = refl
strchr_plain (x ∷ d) r c p h = ground (arith, strchr_plain d r c p.1 h)

append_within_fits :
    (size : ℕ) (s : Bytes) (t : Bytes)
    → length s + length t < size
    → append_within size s t ≡ s ++ t
unfolding append_within
append_within_fits size s t h = ap (◌++◌ s) (take_all (size - length s - 1) t (omega arith))

append_scan_plain :
    (d rate : Bytes) (c : ℕ)
    → IsPlain d
    → length d ≤ 62
    → is_scan c ≡ true
    → strchr rate b'i' ≡ false
    → append_scan (d ++ c ∷ rate) d ≡ d ++ c ∷ []
unfolding append_scan
append_scan_plain d rate c p l h q =
    rw (strchr_plain d (c ∷ rate) b'i' p refl, strchr_plain d (c ∷ rate) b'p' p refl)
      (ground (
        arith,
        append_within_fits 64 d (b'i' ∷ []) (omega arith),
        append_within_fits 64 d (b'p' ∷ []) (omega arith),
      ))

-- A name that is a line count of at most 62 bytes, a scan letter and a rate without an `i` loses
-- its rate, and keeps its line count and its scan letter.
pub parse_resolution_drops_rate :
    (x : ℕ) (d rate : Bytes) (c : ℕ)
    → IsPlain (x ∷ d)
    → length (x ∷ d) ≤ 62
    → is_scan c ≡ true
    → strchr rate b'i' ≡ false
    → parse_resolution ((x ∷ d) ++ c ∷ rate) ≡ some ((x ∷ d) ++ c ∷ [])
unfolding parse_resolution
parse_resolution_drops_rate x d rate c p l h q =
    rw
      (
        take_plain 63 (62 - length (x ∷ d)) (x ∷ d) rate c (omega arith),
        strtok_scan_plain x d (take (62 - length (x ∷ d)) rate) c p h,
      )
      (ap some (append_scan_plain (x ∷ d) rate c p l h q))

-- What a buffer of res_max_len bytes can hold beside its NUL.
abbrev pub Fits : Bytes → Type 0
Fits s = length s < res_max_len

length-print_within : (s : Bytes) → Fits (print_within res_max_len s)
unfolding print_within
length-print_within s = omega (arith, length-take-le 63 s)

append_within-Fits : (s t : Bytes) → Fits s → Fits (append_within res_max_len s t)
append_within-Fits s t h = omega (arith, length-append_within-lt 64 s t (omega arith))

token_of-Fits : (s t : Bytes) → Fits s → token_of s ≡ some t → Fits t
unfolding token_of
token_of-Fits [] t h e = absurd (cc)
token_of-Fits (c ∷ s) t h e = ground (arith, length-until_scan-le (c ∷ s))

append_scan-Fits : (name t : Bytes) → Fits t → Fits (append_scan name t)
unfolding append_scan
append_scan-Fits name t h =
    ground (arith, append_within-Fits t (codes "i") h, append_within-Fits t (codes "p") h)

parse_token-Fits :
    (name : Bytes) (o : Option Bytes) (b : Bytes)
    → ((t : Bytes) → o ≡ some t → Fits t)
    → parse_token name o ≡ some b
    → Fits b
unfolding parse_token
parse_token-Fits name none b h e = absurd (cc)
parse_token-Fits name (some t) b h e = ground (arith, append_scan-Fits name t (h t refl))

strtok_scan-Fits : (s t : Bytes) → Fits s → strtok_scan s ≡ some t → Fits t
unfolding strtok_scan
strtok_scan-Fits s t h e = token_of-Fits (skip_scan s) t (omega (arith, length-skip_scan-le s)) e

fallback-Fits : (name : Bytes) (flag : Bool) → Fits (get_fallback_resolution name flag)
unfolding get_fallback_resolution
fallback-Fits name flag =
    let tmp = length-print_within name in
    ground (
      arith,
      tmp,
      append_within-Fits (print_within 64 name) eu_progressive_fps tmp,
      append_within-Fits (print_within 64 name) eu_interlaced_fps tmp,
      append_within-Fits (print_within 64 name) default_progressive_fps tmp,
    )

-- Every buffer that the name functions fill holds its text and the NUL: whatever the names, the base
-- name and both fall-back names have at most 63 bytes.
pub names_fit :
    (name base : Bytes) (flag : Bool)
    → parse_resolution name ≡ some base
    → Fits base × Fits (get_fallback_resolution name flag)
unfolding parse_resolution
names_fit name base flag e = (
  parse_token-Fits name (strtok_scan (take 63 name)) base
      (λ t. strtok_scan-Fits (take 63 name) t (length-print_within name)) e,
  fallback-Fits name flag,
)

abbrev Returns : Bool → Bytes → Type 0
Returns flag r = r ≢ [] → parse_resolution (get_fallback_resolution r flag) ≡ some r

table-Returns : (eu flag : Bool) → All (Returns flag) (setup_platform_config eu)
unfolding setup_platform_config parse_resolution get_fallback_resolution append_within str_eq
    strtok_scan append_scan
table-Returns true true =
    (λ _. refl, (λ _. refl, (λ _. refl, (λ _. refl, (λ _. refl, (λ _. refl, tt))))))
table-Returns true false =
    (λ _. refl, (λ _. refl, (λ _. refl, (λ _. refl, (λ _. refl, (λ _. refl, tt))))))
table-Returns false true =
    (λ _. refl, (λ _. refl, (λ _. refl, (λ _. refl, (λ _. refl, (λ n. absurd (n refl), tt))))))
table-Returns false false =
    (λ _. refl, (λ _. refl, (λ _. refl, (λ _. refl, (λ _. refl, (λ n. absurd (n refl), tt))))))

-- In the table of either platform, the base name of an entry at either rate is the entry again, so
-- the search behind a name that came from the table goes on from its own place.
pub parse-fallback :
    (eu flag : Bool) (i : ℕ) (r : Bytes)
    → get_elem? (setup_platform_config eu) i ≡ some r
    → r ≢ []
    → parse_resolution (get_fallback_resolution r flag) ≡ some r
parse-fallback eu flag i r e n =
    All-get_elem? (Returns flag) (setup_platform_config eu) i r (table-Returns eu flag) e n
