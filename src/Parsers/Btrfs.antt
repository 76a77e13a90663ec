-- ===== src/Parsers/Btrfs.antt =====
-- The Btrfs parsers of homeinfra/parsers.py: `btrfs filesystem show` and `btrfs device stats`.
use homeinfra_control_center.Prelude.{
  ℕ, ◌&&◌, not, Option, none, some, List, [], ◌∷◌, ◌++◌, reverse, Text, txt, ◌==◌, strip, is_empty,
  starts_with, contains, if◌then◌else◌, find, upper, lower, nat_eq,
}
use homeinfra_control_center.Prelude.Int.{ℤ, pos, ◌+ℤ◌}
use homeinfra_control_center.Errors.{Result, ok, err, index_error}
use homeinfra_control_center.Model.Json.{int, str, Fields}
use homeinfra_control_center.Parsers.Text.{
  split, split_on, before_first, after_first, after_token, after_last_token, drop, text_length,
  ends_with, is_number_text, items_from, stripped_lines, strip_right,
}
use homeinfra_control_center.Parsers.Numbers.{
  Fraction, parse_integer, parse_float, of_decimal, times, round_units, gigabyte, over,
}
use homeinfra_control_center.Parsers.Tables.{dict, given, or_none, read_each, unless, ◌>>=◌}

-- `multipliers`, longest suffix first.
abbrev pub multipliers : List (Text × ℕ)
multipliers =
    (txt "KIB", 1024)
    ∷ (txt "MIB", 1048576)
    ∷ (txt "GIB", 1073741824)
    ∷ (txt "TIB", 1099511627776)
    ∷ (txt "KB", 1024)
    ∷ (txt "MB", 1048576)
    ∷ (txt "GB", 1073741824)
    ∷ (txt "TB", 1099511627776)
    ∷ (txt "B", 1)
    ∷ []

abbrev pub no_bytes : Fraction
no_bytes = record { num = pos 0; den = 1 }

-- `s[:-n]`
abbrev pub drop_last : ℕ → Text → Text
drop_last n s = reverse (drop n (reverse s))

unfoldable pub size_with : List (Text × ℕ) → Text → Fraction
unfolding ends_with parse_float
size_with [] s = no_bytes
size_with ((suffix, mult) ∷ others) s =
    if ends_with suffix s
    then elim (parse_float (drop_last (text_length suffix) s)) [
      | none ↦ no_bytes
      | some x ↦ times mult (of_decimal x)
    ]
    else size_with others s

-- `_parse_size_bytes`
unfoldable pub parse_size_bytes : Text → Fraction
unfolding strip upper size_with
parse_size_bytes s = size_with multipliers (upper (strip s))

-- Sizes in hundredths of a gigabyte, as they are rounded before they are added.
pub record Filesystem : Type 0 where
  pub label : Text
  pub uuid : Text
  pub total_devices : ℤ
  pub total_size_gb : ℤ
  pub used_gb : ℤ

pub record Filesystems : Type 0 where
  pub fs_list : List Filesystem
  pub current : Option Filesystem

abbrev pub finished : Filesystems → List Filesystem
finished s = elim s.current [ none ↦ s.fs_list | some fs ↦ s.fs_list ++ (fs ∷ []) ]

abbrev pub rounded_gb : Text → ℤ
rounded_gb s = round_units 2 (over gigabyte (parse_size_bytes s))

-- `line.split("'")[1]` where there is a quote.
unfoldable pub label_of_line : Text → Text
unfolding after_first before_first
label_of_line line = elim (after_first 39 line) [ none ↦ [] | some s ↦ before_first 39 s ]

unfoldable pub uuid_of_line : Text → Text
unfolding contains after_last_token strip
uuid_of_line line =
    if contains (txt "uuid:") line
    then strip_right (λ c. nat_eq c b')') (strip (after_last_token (txt "uuid:") line))
    else []

unfoldable pub new_filesystem : Text → Filesystem
unfolding label_of_line uuid_of_line
new_filesystem line = record {
  label = label_of_line line;
  uuid = uuid_of_line line;
  total_devices = pos 0;
  total_size_gb = pos 0;
  used_gb = pos 0;
}

-- The first number behind the first word.
unfoldable pub count_devices : Text → Filesystem → Filesystem
unfolding split is_number_text parse_integer
count_devices line fs = elim (find is_number_text (items_from 1 (split line))) [
  | none ↦ fs
  | some p ↦ elim (parse_integer p) [ none ↦ fs | some n ↦ record fs { total_devices = n } ]
]

-- `rest.split()[0]` raises where nothing stands behind the words.
unfoldable pub read_used : Text → Filesystem → Result Filesystem
unfolding after_token split strip parse_size_bytes round_units
read_used line fs = elim (after_token (txt "FS bytes used") line) [
  | none ↦ ok fs
  | some rest ↦ elim (split (strip rest)) [
    | [] ↦ err index_error
    | word ∷ words ↦ ok (record fs { used_gb = rounded_gb word })
  ]
]

-- The word behind the first `size` that has one.
abbrev pub word_after : Text → List Text → Option Text
word_after token [] = none
word_after token (p ∷ []) = none
word_after token (p ∷ q ∷ parts) = if p == token then some q else word_after token (q ∷ parts)

unfoldable pub add_device : Text → Filesystem → Filesystem
unfolding split parse_size_bytes round_units ◌+ℤ◌
add_device line fs = elim (word_after (txt "size") (split line)) [
  | none ↦ fs
  | some size ↦ record fs { total_size_gb = fs.total_size_gb +ℤ rounded_gb size }
]

-- A line within a file system.
unfoldable pub read_detail : Text → Filesystem → Result Filesystem
unfolding contains count_devices read_used add_device
read_detail line fs =
    if contains (txt "Total devices") line
    then read_used line (count_devices line fs)
    else if contains (txt "devid") line && contains (txt "size") line
    then ok (add_device line fs)
    else ok fs

unfoldable pub scan_filesystem : Text → Filesystems → Result Filesystems
unfolding lower starts_with new_filesystem read_detail
scan_filesystem [] s = ok s
scan_filesystem (c ∷ line) s =
    if starts_with (txt "label:") (lower (c ∷ line))
    then ok (record { fs_list = finished s; current = some (new_filesystem (c ∷ line)) })
    else elim s.current [
      | none ↦ ok s
      | some fs ↦ elim (read_detail (c ∷ line) fs) [
        | err e ↦ err e
        | ok fs' ↦ ok (record s { current = some fs' })
      ]
    ]

unfoldable pub scan_filesystems : List Text → Filesystems → Result Filesystems
unfolding scan_filesystem
scan_filesystems [] s = ok s
scan_filesystems (line ∷ lines) s = elim (scan_filesystem line s) [
  | err e ↦ err e
  | ok s' ↦ scan_filesystems lines s'
]

unfoldable pub parse_btrfs_filesystem_show : Text → Result (Option (List Filesystem))
unfolding stripped_lines scan_filesystems
parse_btrfs_filesystem_show text =
    if is_empty text
    then ok none
    else elim (scan_filesystems (stripped_lines text) (record { fs_list = []; current = none })) [
      | err e ↦ err e
      | ok s ↦ ok (or_none (finished s))
    ]

-- `entry`, newest first.
abbrev pub Counters : Type 0
Counters = List (Text × ℤ)

-- `entry.get(key, 0)`
abbrev pub counter : Text → Counters → ℤ
counter key [] = pos 0
counter key ((k, n) ∷ entry) = if key == k then n else counter key entry

-- A pair; a count that is no number gives up the line.
unfoldable pub read_pair : List Text → Counters → Option Counters
unfolding parse_integer
read_pair (key ∷ value ∷ words) entry = do n ← parse_integer value; some ((key, n) ∷ entry)
read_pair _ entry = some entry

unfoldable pub read_pairs : List Text → Counters → Option Counters
unfolding split strip read_pair
read_pairs [] entry = some entry
read_pairs (pair ∷ pairs) entry = elim (read_pair (split (strip pair)) entry) [
  | none ↦ none
  | some entry' ↦ read_pairs pairs entry'
]

unfoldable pub device_stats : Text → Counters → Fields
device_stats device entry = dict (
    ("device", str device)
    ∷ ("write_errs", int (counter (txt "write_io_errs") entry))
    ∷ ("read_errs", int (counter (txt "read_io_errs") entry))
    ∷ ("flush_errs", int (counter (txt "flush_io_errs") entry))
    ∷ ("corruption_errs", int (counter (txt "corruption_errs") entry))
    ∷ ("generation_errs", int (counter (txt "generation_errs") entry))
    ∷ [])

unfoldable pub read_stats : Text → Option Fields
unfolding after_first before_first split_on strip read_pairs device_stats
read_stats [] = none
read_stats (c ∷ line) = unless (not (nat_eq c b'[')) (do
  fields ← after_first b']' line
  entry ← read_pairs (split_on b'.' (strip fields)) []
  some (device_stats (before_first b']' line) entry))

unfoldable pub parse_btrfs_device_stats : Text → Option (List Fields)
unfolding stripped_lines read_stats
parse_btrfs_device_stats text = given text (or_none (read_each read_stats (stripped_lines text)))
