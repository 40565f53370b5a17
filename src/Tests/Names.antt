-- ===== src/Tests/Names.antt =====
-- Resolution names and the choice of a resolution.
use entservices_devicesettin.Prelude.{
  ◌≡◌, refl, ◌↔◌, true, false, none, some, List, [], ◌∷◌, Bytes, codes, str_eq, strstr,
  append_within,
}
use entservices_devicesettin.Resolution.{
  setup_platform_config, is_eu_platform, parse_resolution, strtok_scan, append_scan,
  get_secondary_resolution, get_fallback_resolution,
}
use entservices_devicesettin.Resolution.Select.{
  fault, valid, is_res_in_edid, base_index, choose_resolution, try_fallbacks,
}
use entservices_devicesettin.Resolution.Reference.{
  candidates, first_supported, choose_resolution-first_supported,
}
use entservices_devicesettin.Resolution.Fallback.{choose_resolution-fault_iff}

abbrev uhd60 : Bytes
uhd60 = codes "2160p60"

abbrev sink_names : List Bytes
sink_names = codes "720p" ∷ codes "1080i25" ∷ codes "1080p60" ∷ []

parse_run : parse_resolution uhd60 ≡ some (codes "2160p")
unfolding parse_resolution strtok_scan append_scan
parse_run = refl

choose_resolution-first_supported_example :
    choose_resolution true (setup_platform_config true) sink_names uhd60
    ≡ first_supported sink_names
        (candidates true (setup_platform_config true) uhd60 (codes "2160p"))
choose_resolution-first_supported_example =
    choose_resolution-first_supported true (setup_platform_config true) sink_names uhd60
      (codes "2160p") parse_run

choose_resolution-fault_iff_example :
    (choose_resolution false (setup_platform_config false) sink_names [] ≡ fault) ↔ (
      (parse_resolution [] ≡ none)
      × (is_res_in_edid sink_names [] ≡ false)
      × ((n : Bytes)
          → false ≡ true
          → get_secondary_resolution [] ≡ some n
          → is_res_in_edid sink_names n ≡ false))
choose_resolution-fault_iff_example =
    choose_resolution-fault_iff false (setup_platform_config false) sink_names []

us_table :
    setup_platform_config false
    ≡ codes "2160p" ∷ codes "1080p" ∷ codes "1080i" ∷ codes "720p" ∷ codes "480p" ∷ [] ∷ []
unfolding setup_platform_config
us_table = refl

eu_lines_run : is_eu_platform (some (codes "A=1" ∷ codes "FRIENDLY_ID=\"X UK\"" ∷ [])) ≡ true
unfolding is_eu_platform
eu_lines_run = refl

-- 2160p is not offered, so the European search ends at 1080p60, its second candidate.
choose_run :
    choose_resolution true (setup_platform_config true) sink_names uhd60 ≡ valid (codes "1080p60")
unfolding choose_resolution setup_platform_config is_res_in_edid get_secondary_resolution
    parse_resolution strtok_scan append_scan base_index get_fallback_resolution append_within str_eq
    strstr try_fallbacks
choose_run = refl

choose_empty : choose_resolution false (setup_platform_config false) sink_names [] ≡ fault
unfolding choose_resolution is_res_in_edid parse_resolution strtok_scan
choose_empty = refl
