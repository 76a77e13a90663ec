-- ===== src/Parsers/Usage.antt =====
-- `parse_btrfs_filesystem_usage` of homeinfra/parsers.py.
pub mod Headings
use homeinfra_control_center.Prelude.{
  ℕ, ◌*◌, Bool, true, false, ◌&&◌, ◌||◌, not, Option, none, some, List, [], ◌∷◌, ◌++◌, Text, txt,
  strip, is_empty, starts_with, contains, if◌then◌else◌, map,
}
use homeinfra_control_center.Prelude.Int.{ℤ, pos, pos_part, ltb_ℤ}
use homeinfra_control_center.Monitoring.Values.{times_ℤ}
use homeinfra_control_center.Parsers.Text.{
  split, split_on, has_char, stripped_lines, starts_with_any, item,
}
use homeinfra_control_center.Parsers.Numbers.{
  Decimal, Fraction, parse_float, of_decimal, gigabytes, round,
}
use homeinfra_control_center.Parsers.Tables.{given, or_none, ◌>>=◌}

-- `size_gb` is set when a section begins.
pub record Section : Type 0 where
  pub size_gb : Decimal
  pub used_gb : Option Decimal
  pub free_gb : Option Decimal

pub record Sections : Type 0 where
  pub result : List Section
  pub section : Option Section

abbrev pub finished_sections : Sections → List Section
finished_sections s = elim s.section [ none ↦ s.result | some section ↦ s.result ++ (section ∷ []) ]

abbrev pub last_part : List Text → Text
last_part [] = []
last_part (p ∷ []) = p
last_part (p ∷ q ∷ parts) = last_part (q ∷ parts)

-- `round(float(part.strip().split()[0]) / (1024 ** 3), 2)`; `none` is what the handler catches.
unfoldable pub read_gigabytes : Text → Option Decimal
unfolding strip split parse_float gigabytes
read_gigabytes part = do
  word ← item 0 (split (strip part))
  size ← parse_float word
  some (gigabytes (of_decimal size))

abbrev pub zero_gb : Decimal
zero_gb = record { digits = pos 0; scale = 0 }

-- The section that a line with `Device size:` begins.
unfoldable pub new_section : Text → Section
unfolding split_on read_gigabytes
new_section line = record {
  size_gb = elim (item 1 (split_on b':' line)) [
    | none ↦ zero_gb
    | some part ↦ elim (read_gigabytes part) [ none ↦ zero_gb | some size ↦ size ]
  ];
  used_gb = none;
  free_gb = none;
}

abbrev pub or_kept : Option Decimal → Option Decimal → Option Decimal
or_kept none kept = kept
or_kept (some x) kept = some x

unfoldable pub read_section : Text → Section → Section
unfolding contains split_on read_gigabytes
read_section line s =
    let value = read_gigabytes (last_part (split_on b':' line)) in
    if contains (txt "Used") line || contains (txt "used") line
    then record s { used_gb = or_kept value s.used_gb }
    else if contains (txt "Free") line || contains (txt "free") line
    then record s { free_gb = or_kept value s.free_gb }
    else s

abbrev pub headings : List Text
headings = txt "Overall" ∷ txt "Device" ∷ txt "Unallocated" ∷ []

-- `":" in line and line.startswith(("Overall", "Device", "Unallocated"))`
unfoldable pub is_heading : Text → Bool
unfolding starts_with
is_heading line = has_char b':' line && starts_with_any headings line

unfoldable pub scan_usage_line : Text → Sections → Sections
unfolding is_heading contains new_section read_section
scan_usage_line line s =
    if is_empty line
    then record { result = finished_sections s; section = none }
    else if is_heading line
    then s
    else if contains (txt "Device size:") line
    then record { result = finished_sections s; section = some (new_section line) }
    else elim s.section [
      | none ↦ s
      | some section ↦ record s { section = some (read_section line section) }
    ]

unfoldable pub scan_usage : List Text → Sections → Sections
unfolding scan_usage_line
scan_usage [] s = s
scan_usage (line ∷ lines) s = scan_usage lines (scan_usage_line line s)

pub record Usage : Type 0 where
  pub size_gb : Decimal
  pub used_gb : Option Decimal
  pub free_gb : Option Decimal
  pub usage_percent : Decimal

-- `round(used / size * 100, 1)`, both with two decimal places.
unfoldable pub usage_percent : Decimal → Option Decimal → Decimal
unfolding round
usage_percent size none = zero_gb
usage_percent size (some used) =
    if ltb_ℤ (pos 0) size.digits
    then round 1 (record {
      num = times_ℤ (100 * (of_decimal size).den) used.digits;
      den = (of_decimal used).den * pos_part size.digits;
    })
    else zero_gb

unfoldable pub usage_of : Section → Usage
unfolding usage_percent
usage_of s = record {
  size_gb = s.size_gb;
  used_gb = s.used_gb;
  free_gb = s.free_gb;
  usage_percent = usage_percent s.size_gb s.used_gb;
}

unfoldable pub parse_btrfs_filesystem_usage : Text → Option (List Usage)
unfolding stripped_lines scan_usage usage_of
parse_btrfs_filesystem_usage text = given text (
    or_none (
      map usage_of (
        finished_sections
          (scan_usage (stripped_lines text) (record { result = []; section = none })))))
