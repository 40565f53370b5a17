-- ===== src/Resolution.antt =====
-- plugin/DSController.cpp: the functions on resolution names ("1080p60") and the platform's table of
-- fall-back resolutions. A name is its bytes; a buffer has room for res_max_len bytes, the NUL included.
pub mod Select
pub mod Names
pub mod Reference
pub mod Fallback
use entservices_devicesettin.Prelude.{
  ℕ, ◌+◌, ◌-◌, Bool, true, false, not, ◌&&◌, ◌||◌, Option, none, some, List, [], ◌∷◌, Bytes, codes,
  str_eq, strstr, strchr, append_within, length, take, set, replicate, ltb, ◌==◌, if◌then◌else◌,
}

abbrev pub res_max_len : ℕ
res_max_len = 64

abbrev pub res_max_count : ℕ
res_max_count = 6

abbrev pub base_uhd : Bytes
base_uhd = codes "2160p"

abbrev pub base_fhd : Bytes
base_fhd = codes "1080p"

abbrev pub base_fhd_int : Bytes
base_fhd_int = codes "1080i"

abbrev pub base_hd : Bytes
base_hd = codes "720p"

abbrev pub base_pal : Bytes
base_pal = codes "576p"

abbrev pub base_ntsc : Bytes
base_ntsc = codes "480p"

abbrev pub default_progressive_fps : Bytes
default_progressive_fps = codes "60"

abbrev pub eu_progressive_fps : Bytes
eu_progressive_fps = codes "50"

abbrev pub eu_interlaced_fps : Bytes
eu_interlaced_fps = codes "25"

-- snprintf(buf, size, "%s", s)
unfoldable pub print_within : ℕ → Bytes → Bytes
print_within size s = take (size - 1) s

-- The loop of `isEUPlatform` over what `fgets` returns, one entry a call.
eu_lines : List Bytes → Bool
eu_lines [] = false
eu_lines (line ∷ rest) =
    if strstr line (codes "FRIENDLY_ID") then not (strstr line (codes " US")) else eu_lines rest

-- `none`: /etc/device.properties cannot be opened.
unfoldable pub is_eu_platform : Option (List Bytes) → Bool
unfolding eu_lines strstr
is_eu_platform none = false
is_eu_platform (some lines) = eu_lines lines

-- `resList` of setupPlatformConfig, best first.
abbrev pub res_list : List Bytes
res_list = base_uhd ∷ base_fhd ∷ base_fhd_int ∷ base_hd ∷ base_pal ∷ base_ntsc ∷ []

-- The loop of `setupPlatformConfig`: the entries left, `count`, and fallBackResolutionList.
setup_loop : Bool → List Bytes → ℕ → List Bytes → List Bytes
setup_loop eu [] count table = table
setup_loop eu (r ∷ rest) count table =
    let skipped = setup_loop eu rest count table in
    let written = setup_loop eu rest (count + 1) (set table count (print_within res_max_len r)) in
    if strstr r base_pal && not eu
    then skipped
    else if ltb count res_max_count
    then written
    else table

-- fallBackResolutionList after `setupPlatformConfig`; its six slots start out empty.
unfoldable pub setup_platform_config : Bool → List Bytes
unfolding setup_loop strstr print_within
setup_platform_config eu = setup_loop eu res_list 0 (replicate res_max_count [])

-- `none` is the result `false`: no secondary resolution.
unfoldable pub get_secondary_resolution : Bytes → Option Bytes
unfolding append_within
get_secondary_resolution res =
    if strstr res base_hd
    then some base_hd
    else if strstr res base_fhd
    then some (append_within res_max_len base_fhd default_progressive_fps)
    else if strstr res base_fhd_int
    then some base_fhd_int
    else if strstr res base_uhd
    then some (append_within res_max_len base_uhd default_progressive_fps)
    else none

-- The delimiters "ip" of the `strtok` call.
abbrev pub is_scan : ℕ → Bool
is_scan c = c == b'i' || c == b'p'

skip_scan : Bytes → Bytes
skip_scan [] = []
skip_scan (c ∷ s) = if is_scan c then skip_scan s else c ∷ s

until_scan : Bytes → Bytes
until_scan [] = []
until_scan (c ∷ s) = if is_scan c then [] else c ∷ until_scan s

token_of : Bytes → Option Bytes
token_of [] = none
token_of (c ∷ s) = some (until_scan (c ∷ s))

-- strtok(s, "ip"); `none` is the null pointer, returned when s holds nothing but delimiters.
unfoldable pub strtok_scan : Bytes → Option Bytes
unfolding skip_scan until_scan token_of
strtok_scan s = token_of (skip_scan s)

-- The letter that `parseResolution` puts back.
unfoldable pub append_scan : Bytes → Bytes → Bytes
unfolding strchr append_within
append_scan name token =
    if strchr name b'i'
    then append_within res_max_len token (codes "i")
    else if strchr name b'p'
    then append_within res_max_len token (codes "p")
    else token

parse_token : Bytes → Option Bytes → Option Bytes
parse_token name none = none
parse_token name (some token) = some (append_scan name token)

-- `none`: `strncpy` is called with the null pointer that `strtok` returned.
unfoldable pub parse_resolution : Bytes → Option Bytes
unfolding parse_token print_within
parse_resolution name = parse_token name (strtok_scan (print_within res_max_len name))

-- `flag` is true for the European rates.
unfoldable pub get_fallback_resolution : Bytes → Bool → Bytes
unfolding print_within
get_fallback_resolution res flag =
    let tmp = print_within res_max_len res in
    if flag
    then (if str_eq res base_uhd || str_eq res base_fhd || str_eq res base_hd
        then append_within res_max_len tmp eu_progressive_fps
        else if str_eq res base_fhd_int
        then append_within res_max_len tmp eu_interlaced_fps
        else tmp)
    else if str_eq res base_uhd || str_eq res base_fhd
    then append_within res_max_len tmp default_progressive_fps
    else tmp
