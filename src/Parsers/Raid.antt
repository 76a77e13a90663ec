-- ===== src/Parsers/Raid.antt =====
-- `parse_mdstat` of homeinfra/parsers.py.
pub mod Alerting
use homeinfra_control_center.Prelude.{
  ℕ, Bool, true, false, ◌&&◌, ◌||◌, not, Option, none, some, List, [], ◌∷◌, ◌++◌, Text, txt, strip,
  lower, upper, is_empty, starts_with, contains, if◌then◌else◌, count, find, mem, or_else,
}
use homeinfra_control_center.Prelude.Int.{pos}
use homeinfra_control_center.Model.Json.{int, str, Fields}
use homeinfra_control_center.Parsers.Text.{
  split, before_first, after_first, has_char, occurrences, starts_with_any, stripped_lines,
}
use homeinfra_control_center.Parsers.Tables.{dict, given, or_none, read_each, unless}

-- What stands behind the first colon; nothing where there is none.
abbrev pub behind_colon : Text → Text
behind_colon line = elim (after_first b':' line) [ none ↦ [] | some s ↦ s ]

unfoldable pub is_skipped : Text → Bool
unfolding contains
is_skipped line =
    is_empty line
    || not (has_char b':' line)
    || contains (txt "Personalities") line
    || contains (txt "unused") line

unfoldable pub array_state : Text → Text
unfolding contains lower
array_state info = if contains (txt "inactive") (lower info) then txt "inactive" else txt "active"

unfoldable pub raid_type : List Text → Text
unfolding starts_with
raid_type parts =
    elim (find (λ p. starts_with (txt "raid") p || mem p (txt "linear" ∷ txt "multipath" ∷ []))
      parts) [ none ↦ txt "unknown" | some p ↦ p ]

-- `info.count("(F)")` behind the test that it occurs.
unfoldable pub degraded_drives : Text → ℕ
unfolding contains occurrences
degraded_drives info = if contains (txt "(F)") info then occurrences (txt "(F)") info else 0

unfoldable pub raid_array : Text → Text → Fields
unfolding split starts_with raid_type array_state upper degraded_drives
raid_array name info =
    let parts = split info in
    dict (
      ("name", str name)
      ∷ ("type", str (raid_type parts))
      ∷ ("state", str (upper (array_state info)))
      ∷ (
        "drives",
        int (
            pos (count (starts_with_any (txt "sd" ∷ txt "hd" ∷ txt "nvme" ∷ txt "vd" ∷ [])) parts)),
      )
      ∷ ("degraded_drives", int (pos (degraded_drives info)))
      ∷ [])

unfoldable pub read_array : Text → Option Fields
unfolding strip is_skipped before_first after_first raid_array
read_array line = unless (is_skipped line) (
    let name = strip (before_first b':' line) in
    unless (is_empty name) (some (raid_array name (strip (behind_colon line)))))

unfoldable pub parse_mdstat : Text → Option (List Fields)
unfolding stripped_lines read_array
parse_mdstat text = given text (or_none (read_each read_array (stripped_lines text)))
