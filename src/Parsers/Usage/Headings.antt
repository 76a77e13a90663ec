-- ===== src/Parsers/Usage/Headings.antt =====
-- The lines that `parse_btrfs_filesystem_usage` takes for headings.
use homeinfra_control_center.Prelude.{
  ℕ, ◌≡◌, refl, arith, true, inl, inr, Bool-cases, none, List, [], ◌∷◌, ◌++◌, Text, txt,
  starts_with, contains, is_empty, All,
}
use homeinfra_control_center.Parsers.Text.{has_char, stripped_lines}
use homeinfra_control_center.Parsers.Usage.{
  Sections, is_heading, scan_usage_line, scan_usage, parse_btrfs_filesystem_usage,
}

starts_with-append : (p q s : Text) → starts_with (p ++ q) s ≡ true → starts_with p s ≡ true
unfolding starts_with
starts_with-append [] q s h = refl
starts_with-append (c ∷ p) q [] h = cc
starts_with-append (c ∷ p) q (d ∷ s) h = ground (arith, starts_with-append p q s)

has_char-prefix :
    (c : ℕ) (p s : Text) → starts_with p s ≡ true → has_char c p ≡ true → has_char c s ≡ true
unfolding starts_with
has_char-prefix c [] s h k = cc
has_char-prefix c (d ∷ p) [] h k = cc
has_char-prefix c (d ∷ p) (e ∷ s) h k = ground (arith, has_char-prefix c p s)

abbrev device_size : Text
device_size = txt "Device size:"

device_size-is_heading :
    (line : Text) → starts_with device_size line ≡ true → is_heading line ≡ true
unfolding is_heading
device_size-is_heading line h =
    let device = starts_with-append (txt "Device") (txt " size:") line h in
    let colon = has_char-prefix b':' device_size line h refl in ground arith

-- Wherever the words stand in the line, the line begins with them.
abbrev pub SizeFirst : Text → Type 0
SizeFirst line = contains device_size line ≡ true → starts_with device_size line ≡ true

abbrev nothing : Sections
nothing = record { result = []; section = none }

scan_usage_line-nothing : (line : Text) → SizeFirst line → scan_usage_line line nothing ≡ nothing
unfolding scan_usage_line
scan_usage_line-nothing line h = elim (Bool-cases (is_empty line)) [
  | inl blank ↦ rw blank refl
  | inr there ↦ elim (Bool-cases (contains device_size line)) [
    | inl found ↦ rw (there, device_size-is_heading line (h found)) refl
    | inr other ↦ elim (Bool-cases (is_heading line)) [
      | inl heading ↦ rw (there, heading) refl
      | inr plain ↦ rw (there, plain, other) refl
    ]
  ]
]

scan_usage-nothing : (lines : List Text) → All SizeFirst lines → scan_usage lines nothing ≡ nothing
unfolding scan_usage
scan_usage-nothing [] h = refl
scan_usage-nothing (line ∷ lines) h =
    rw (scan_usage_line-nothing line h.0) (scan_usage-nothing lines h.1)

-- Where every line that has the words `Device size:` begins with them, the parser of `btrfs
-- filesystem usage` finds nothing.
pub usage_never_read :
    (text : Text) → All SizeFirst (stripped_lines text) → parse_btrfs_filesystem_usage text ≡ none
unfolding parse_btrfs_filesystem_usage
usage_never_read text h = ground (arith, scan_usage-nothing (stripped_lines text) h)
