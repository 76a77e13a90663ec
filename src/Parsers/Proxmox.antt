-- ===== src/Parsers/Proxmox.antt =====
-- The Proxmox parsers of homeinfra/parsers.py: `pveversion`, `pvesm status`, and the lists of
-- virtual machines and of containers.
use homeinfra_control_center.Prelude.{
  ℕ, Bool, ◌||◌, Option, none, some, List, [], ◌∷◌, Text, txt, strip, lower, is_empty, starts_with,
  if◌then◌else◌, nat_eq,
}
use homeinfra_control_center.Prelude.Int.{ℤ, pos, pos_part, ltb_ℤ}
use homeinfra_control_center.Errors.{Result, ok, err, index_error}
use homeinfra_control_center.Model.Json.{Value, int, str, Fields}
use homeinfra_control_center.Monitoring.Values.{times_ℤ}
use homeinfra_control_center.Parsers.Text.{
  splitlines, split, before_first, after_token, before_token, item, stripped_lines, strip_right,
}
use homeinfra_control_center.Parsers.Numbers.{parse_integer, parse_float, round, float_value}
use homeinfra_control_center.Parsers.Tables.{dict, given, or_none, read_each, unless, ◌>>=◌}

-- `line.split("pve-manager/")[1].split("/")[0]` where that stands in the line.
unfoldable pub manager_version : Text → Text
unfolding after_token before_token before_first
manager_version line = elim (after_token (txt "pve-manager/") line) [
  | none ↦ line
  | some rest ↦ before_first b'/' (before_token (txt "pve-manager/") rest)
]

unfoldable pub parse_pveversion : Text → Result (Option Text)
unfolding strip splitlines manager_version
parse_pveversion text = if is_empty text then ok none else elim (splitlines (strip text)) [
  | [] ↦ err index_error
  | first ∷ lines ↦
      let line = strip first in ok (if is_empty line then none else some (manager_version line))
]

-- `int(parts[n])`, or 0 where the row is shorter.
unfoldable pub integer_at : ℕ → List Text → Option ℤ
unfolding parse_integer
integer_at n parts = elim (item n parts) [ none ↦ some (pos 0) | some p ↦ parse_integer p ]

-- The seventh column, or the quotient of used and total.
unfoldable pub storage_percent : List Text → ℤ → ℤ → Option Value
unfolding parse_float round
storage_percent parts total used = elim (item 6 parts) [
  | some p ↦ elim (parse_float (strip_right (λ c. nat_eq c b'%') p)) [
    | none ↦ none
    | some x ↦ some (float_value x)
  ]
  | none ↦ some (
      if ltb_ℤ (pos 0) total
      then float_value (round 1 (record { num = times_ℤ 100 used; den = pos_part total }))
      else int (pos 0))
]

unfoldable pub storage_row : List Text → Option Fields
unfolding integer_at storage_percent
storage_row (storage ∷ type ∷ status ∷ columns) =
    let parts = storage ∷ type ∷ status ∷ columns in
    do
      total ← integer_at 3 parts
      used ← integer_at 4 parts
      available ← integer_at 5 parts
      percent ← storage_percent parts total used
      some (
          dict (
            ("storage", str storage)
            ∷ ("type", str type)
            ∷ ("status", str status)
            ∷ ("total", int total)
            ∷ ("used", int used)
            ∷ ("available", int available)
            ∷ ("percent", percent)
            ∷ []))
storage_row _ = none

-- An empty line, and the header.
unfoldable pub has_heading : List Text → Text → Bool
unfolding lower starts_with
has_heading [] line = is_empty line
has_heading (heading ∷ others) line = starts_with heading (lower line) || has_heading others line

unfoldable pub parse_pvesm_status : Text → Option (List Fields)
unfolding stripped_lines split has_heading storage_row
parse_pvesm_status text = given text (
    or_none (
      read_each (λ line. unless (has_heading (txt "name" ∷ []) line) (storage_row (split line)))
        (stripped_lines text)))

-- `float(parts[n])`; 0 where the row is shorter or that is no number.
unfoldable pub size_at : ℕ → List Text → Value
unfolding parse_float
size_at n parts = elim (item n parts) [
  | none ↦ int (pos 0)
  | some p ↦ elim (parse_float p) [ none ↦ int (pos 0) | some x ↦ float_value x ]
]

abbrev pub text_or : Text → Option Text → Text
text_or default none = default
text_or default (some s) = s

unfoldable pub guest_row : List Text → Option Fields
unfolding size_at
guest_row (id ∷ name ∷ columns) =
    let parts = id ∷ name ∷ columns in
    some (
      dict (
        ("id", str id)
        ∷ ("name", str name)
        ∷ ("status", str (text_or (txt "unknown") (item 2 parts)))
        ∷ ("memory", size_at 3 parts)
        ∷ ("disk", size_at 4 parts)
        ∷ []))
guest_row _ = none

-- `_parse_guest_list`, which `parse_qm_list` and `parse_pct_list` return.
unfoldable pub parse_guest_list : Text → Option (List Fields)
unfolding stripped_lines split has_heading guest_row
parse_guest_list text = given text (
    or_none (
      read_each
        (λ line. unless (has_heading (txt "vmid" ∷ txt "ctid" ∷ []) line) (guest_row (split line)))
        (stripped_lines text)))

unfoldable pub parse_qm_list : Text → Option (List Fields)
unfolding parse_guest_list
parse_qm_list = parse_guest_list

unfoldable pub parse_pct_list : Text → Option (List Fields)
unfolding parse_guest_list
parse_pct_list = parse_guest_list
