-- ===== src/HdmiStatus/Lines.antt =====
-- What a reader finds in the status file.
use entservices_devicesettin.Prelude.{
  ℕ, suc, ◌≡◌, refl, ap, ◌∙◌, Bool, true, false, ◌&&◌, Option, none, some, List, [], ◌∷◌, ◌++◌,
  Bytes, codes, has_prefix, drop, length, ◌==◌, if◌then◌else◌, if_true, Bool-cases, inl, inr, arith,
}
use entservices_devicesettin.HdmiStatus.{
  Entry, hotplug, hdcp_status, hdcp_version, key_of, value_name, other_lines, write_line,
  sync_hdmi_status,
}

-- The text behind the first line that starts with the tag.
unfoldable pub value_at : Bytes → List Bytes → Option Bytes
value_at tag [] = none
value_at tag (line ∷ lines) =
    if has_prefix tag line then some (drop (length tag) line) else value_at tag lines

abbrev pub tag_of : Entry → Bytes
tag_of e = key_of e ++ codes "="

-- How many lines start with the tag.
abbrev pub lines_of : Bytes → List Bytes → ℕ
lines_of tag [] = 0
lines_of tag (line ∷ lines) =
    if has_prefix tag line then suc (lines_of tag lines) else lines_of tag lines

has_prefix-append : (tag rest : Bytes) → has_prefix tag (tag ++ rest) ≡ true
unfolding has_prefix
has_prefix-append [] rest = refl
has_prefix-append (c ∷ tag) rest = ground (arith, has_prefix-append tag rest)

drop-append : (tag rest : Bytes) → drop (length tag) (tag ++ rest) ≡ rest
drop-append [] rest = refl
drop-append (c ∷ tag) rest = drop-append tag rest

value_at_line : (tag rest : Bytes) → value_at tag ((tag ++ rest) ∷ []) ≡ some rest
unfolding value_at
value_at_line tag rest = if_true _ _ _ (has_prefix-append tag rest) ∙ ap some (drop-append tag rest)

value_at-other_lines :
    (tag line : Bytes) (lines : List Bytes)
    → value_at tag (other_lines tag lines ++ (line ∷ [])) ≡ value_at tag (line ∷ [])
unfolding value_at other_lines
value_at-other_lines tag line [] = refl
value_at-other_lines tag line (l ∷ lines) = ground (arith, value_at-other_lines tag line lines)

lines_of-other_lines :
    (tag line : Bytes) (lines : List Bytes)
    → has_prefix tag line ≡ true
    → lines_of tag (other_lines tag lines ++ (line ∷ [])) ≡ 1
unfolding other_lines
lines_of-other_lines tag line [] h = ground (arith, h)
lines_of-other_lines tag line (l ∷ lines) h = ground (arith, lines_of-other_lines tag line lines)

-- One of the two texts starts the other.
abbrev agrees : Bytes → Bytes → Bool
agrees [] t = true
agrees (a ∷ s) [] = true
agrees (a ∷ s) (b ∷ t) = a == b && agrees s t

-- No line starts with two tags of which neither starts the other.
apart :
    (s t line : Bytes) → agrees s t ≡ false → has_prefix s line ≡ true → has_prefix t line ≡ false
unfolding has_prefix
apart [] t line d h = absurd (cc)
apart (a ∷ s) [] line d h = absurd (cc)
apart (a ∷ s) (b ∷ t) [] d h = absurd (cc)
apart (a ∷ s) (b ∷ t) (c ∷ line) d h = ground (arith, d, h, apart s t line)

value_at-other :
    (tag other line : Bytes) (lines : List Bytes)
    → ((line : Bytes) → has_prefix tag line ≡ true → has_prefix other line ≡ false)
    → has_prefix tag line ≡ true
    → value_at other (other_lines tag lines ++ (line ∷ [])) ≡ value_at other lines
unfolding value_at other_lines
value_at-other tag other line [] a h = ground (arith, a line h)
value_at-other tag other line (l ∷ lines) a h = elim (Bool-cases (has_prefix tag l)) [
  | inl e ↦ ground (arith, a l e, e, value_at-other tag other line lines a h)
  | inr e ↦ ground (arith, e, value_at-other tag other line lines a h)
]

-- Two entries of different keys.
abbrev pub Differ : Entry → Entry → Type 0
Differ (hotplug a) (hotplug b) = ⊥
Differ (hotplug a) (hdcp_status b) = Unit
Differ (hotplug a) (hdcp_version b) = Unit
Differ (hdcp_status a) (hotplug b) = Unit
Differ (hdcp_status a) (hdcp_status b) = ⊥
Differ (hdcp_status a) (hdcp_version b) = Unit
Differ (hdcp_version a) (hotplug b) = Unit
Differ (hdcp_version a) (hdcp_status b) = Unit
Differ (hdcp_version a) (hdcp_version b) = ⊥

tags-Differ : (e f : Entry) → Differ e f → agrees (tag_of e) (tag_of f) ≡ false
unfolding key_of
tags-Differ (hotplug a) (hotplug b) d = absurd d
tags-Differ (hotplug a) (hdcp_status b) d = refl
tags-Differ (hotplug a) (hdcp_version b) d = refl
tags-Differ (hdcp_status a) (hotplug b) d = refl
tags-Differ (hdcp_status a) (hdcp_status b) d = absurd d
tags-Differ (hdcp_status a) (hdcp_version b) d = refl
tags-Differ (hdcp_version a) (hotplug b) d = refl
tags-Differ (hdcp_version a) (hdcp_status b) d = refl
tags-Differ (hdcp_version a) (hdcp_version b) d = absurd d

-- After an entry was written the file has one line of its key, a reader finds its value there, and what a
-- reader finds under another key is what it found before.
pub sync_hdmi_status-value_at :
    (e f : Entry) (lines : List Bytes)
    → Differ e f
    → (lines_of (tag_of e) (sync_hdmi_status e lines) ≡ 1)
      × ((value_at (tag_of e) (sync_hdmi_status e lines) ≡ some (value_name e))
          × (value_at (tag_of f) (sync_hdmi_status e lines) ≡ value_at (tag_of f) lines))
unfolding sync_hdmi_status write_line
sync_hdmi_status-value_at e f lines d =
    let h = has_prefix-append (tag_of e) (value_name e) in
    (
      lines_of-other_lines (tag_of e) (tag_of e ++ value_name e) lines h,
      (
        value_at-other_lines (tag_of e) (tag_of e ++ value_name e) lines
            ∙ value_at_line (tag_of e) (value_name e),
        value_at-other (tag_of e) (tag_of f) (tag_of e ++ value_name e) lines
            (λ line. apart (tag_of e) (tag_of f) line (tags-Differ e f d)) h,
      ),
    )

-- What a reader finds under the key just written, whatever the file was.
pub value_at-sync :
    (e : Entry) (lines : List Bytes)
    → value_at (tag_of e) (sync_hdmi_status e lines) ≡ some (value_name e)
unfolding sync_hdmi_status write_line
value_at-sync e lines =
    value_at-other_lines (tag_of e) (tag_of e ++ value_name e) lines
    ∙ value_at_line (tag_of e) (value_name e)

pub value_at-sync_other :
    (e f : Entry) (lines : List Bytes)
    → Differ e f
    → value_at (tag_of f) (sync_hdmi_status e lines) ≡ value_at (tag_of f) lines
value_at-sync_other e f lines d = (sync_hdmi_status-value_at e f lines d).1.1
