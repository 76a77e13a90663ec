-- ===== src/Parsers/System.antt =====
-- The parsers of homeinfra/parsers.py for the commands that every machine has: hostname, uname,
-- /proc/uptime, /proc/loadavg, /proc/meminfo and df.
use homeinfra_control_center.Prelude.{
  ℕ, ◌*◌, Option, none, some, List, [], ◌∷◌, Text, txt, ◌==◌, strip, lower, mem, if◌then◌else◌,
  is_empty, nat_eq,
}
use homeinfra_control_center.Prelude.Int.{pos, pos_part, ltb_ℤ, leb_ℤ, ◌-ℤ◌}
use homeinfra_control_center.Errors.{Result, ok, err, index_error}
use homeinfra_control_center.Model.Json.{str, Fields}
use homeinfra_control_center.Monitoring.Values.{times_ℤ}
use homeinfra_control_center.Parsers.Text.{splitlines, split, split_on, strip_right}
use homeinfra_control_center.Parsers.Numbers.{
  Decimal, parse_float, Fraction, of_decimal, over, times, gigabytes, float_value, round,
}
use homeinfra_control_center.Parsers.Tables.{
  dict, or_none, text_or_none, read_each, unless, given, ◌>>=◌,
}

-- A text of white space has no first line.
unfoldable pub parse_hostname : Text → Result (Option Text)
unfolding strip splitlines
parse_hostname text = if is_empty text then ok none else elim (splitlines (strip text)) [
  | [] ↦ err index_error
  | line ∷ lines ↦ ok (text_or_none (strip line))
]

unfoldable pub parse_uname : Text → Option Text
unfolding strip
parse_uname text = given text (text_or_none (strip text))

unfoldable pub parse_uptime : Text → Option Decimal
unfolding strip split parse_float
parse_uptime text =
    given text (elim (split (strip text)) [ [] ↦ none | part ∷ parts ↦ parse_float part ])

pub record LoadAverage : Type 0 where
  pub load_1m : Decimal
  pub load_5m : Decimal
  pub load_15m : Decimal

unfoldable pub load_average : List Text → Option LoadAverage
unfolding parse_float
load_average (first ∷ second ∷ third ∷ parts) = do
  one ← parse_float first
  five ← parse_float second
  fifteen ← parse_float third
  some (record { load_1m = one; load_5m = five; load_15m = fifteen })
load_average _ = none

unfoldable pub parse_loadavg : Text → Option LoadAverage
unfolding strip split load_average
parse_loadavg text = given text (load_average (split (strip text)))

-- `values`, from a lower-case key to megabytes; the newest entry of a key stands first.
abbrev pub Memory : Type 0
Memory = List (Text × Fraction)

abbrev pub memory_at : Text → Memory → Option Fraction
memory_at key [] = none
memory_at key ((k, x) ∷ values) = if key == k then some x else memory_at key values

-- `values.get(key, default)`
abbrev pub memory_or : Fraction → Text → Memory → Fraction
memory_or default key values = elim (memory_at key values) [ none ↦ default | some x ↦ x ]

abbrev pub zero_mb : Fraction
zero_mb = record { num = pos 0; den = 1 }

abbrev pub memory_keys : List Text
memory_keys =
    txt "MemTotal"
    ∷ txt "MemFree"
    ∷ txt "MemAvailable"
    ∷ txt "Buffers"
    ∷ txt "Cached"
    ∷ txt "SwapTotal"
    ∷ txt "SwapFree"
    ∷ []

-- The three branches on the key store the value under the key in lower case.
unfoldable pub store_memory : Text → Text → Memory → Memory
unfolding parse_float lower
store_memory key value values = elim (parse_float value) [
  | none ↦ values
  | some kb ↦
      if mem key memory_keys then (lower key, over 1024 (of_decimal kb)) ∷ values else values
]

-- A line; where nothing but white space stands behind the colon, `split()[0]` raises.
unfoldable pub read_memory : Text → Memory → Result Memory
unfolding strip split split_on store_memory
read_memory line values = elim (split_on b':' line) [
  | key ∷ value ∷ parts ↦ elim (split (strip value)) [
    | [] ↦ err index_error
    | word ∷ words ↦ ok (store_memory (strip key) word values)
  ]
  | _ ↦ ok values
]

unfoldable pub read_memory_lines : List Text → Memory → Result Memory
unfolding read_memory
read_memory_lines [] values = ok values
read_memory_lines (line ∷ lines) values = elim (read_memory line values) [
  | err e ↦ err e
  | ok values' ↦ read_memory_lines lines values'
]

-- `max(0.0, x - y)`
unfoldable pub excess : Fraction → Fraction → Fraction
excess x y =
    let d = times_ℤ y.den x.num -ℤ times_ℤ x.den y.num in
    record { num = pos (pos_part d); den = x.den * y.den }

-- `x / y * 100.0 if y > 0 else 0.0`
unfoldable pub percent_of : Fraction → Fraction → Fraction
percent_of x y =
    if ltb_ℤ (pos 0) y.num
    then record { num = times_ℤ (100 * y.den) x.num; den = x.den * pos_part y.num }
    else record { num = pos 0; den = 1 }

pub record MemoryUsage : Type 0 where
  pub memory_total_mb : Fraction
  pub memory_used_mb : Fraction
  pub memory_percent : Fraction
  pub memory_buffers_mb : Fraction
  pub memory_cached_mb : Fraction
  pub memory_swap_total_mb : Fraction
  pub memory_swap_used_mb : Fraction

unfoldable pub memory_usage : Memory → Fraction → MemoryUsage
unfolding excess percent_of
memory_usage values total =
    let free = memory_or zero_mb (txt "memfree") values in
    let used = excess total (memory_or free (txt "memavailable") values) in
    let swap_total = memory_or zero_mb (txt "swaptotal") values in
    record {
      memory_total_mb = total;
      memory_used_mb = used;
      memory_percent = percent_of used total;
      memory_buffers_mb = memory_or zero_mb (txt "buffers") values;
      memory_cached_mb = memory_or zero_mb (txt "cached") values;
      memory_swap_total_mb = swap_total;
      memory_swap_used_mb = excess swap_total (memory_or zero_mb (txt "swapfree") values);
    }

-- What is left to do with `values` after the loop.
unfoldable pub summarise_memory : Memory → Option MemoryUsage
unfolding memory_usage
summarise_memory values = elim (memory_at (txt "memtotal") values) [
  | none ↦ none
  | some total ↦ some (memory_usage values total)
]

unfoldable pub parse_meminfo : Text → Result (Option MemoryUsage)
unfolding strip splitlines read_memory_lines summarise_memory
parse_meminfo text =
    if is_empty text then ok none else elim (read_memory_lines (splitlines (strip text)) []) [
      | err e ↦ err e
      | ok values ↦ ok (summarise_memory values)
    ]

-- `float(s) if s else 0.0`
abbrev pub float_or_zero : Text → Option Decimal
float_or_zero [] = some (record { digits = pos 0; scale = 0 })
float_or_zero (c ∷ s) = parse_float (c ∷ s)

unfoldable pub partition : ℕ → List Text → Option Fields
unfolding parse_float gigabytes round
partition block_size (fs_name ∷ total ∷ used ∷ available ∷ capacity ∷ mount ∷ parts) = do
  total_blocks ← parse_float total
  used_blocks ← parse_float used
  available_blocks ← parse_float available
  percent ← float_or_zero (strip_right (λ c. nat_eq c b'%') capacity)
  let total_bytes = times block_size (of_decimal total_blocks)
  unless (leb_ℤ total_bytes.num (pos 0)) (
      some (
        dict (
          ("device", str fs_name)
          ∷ ("mount", str mount)
          ∷ ("size_gb", float_value (gigabytes total_bytes))
          ∷ ("used_gb", float_value (gigabytes (times block_size (of_decimal used_blocks))))
          ∷ ("usage_percent", float_value (round 1 (of_decimal percent)))
          ∷ [])))
partition block_size _ = none

-- The rows below the header.
unfoldable pub parse_df : ℕ → Text → Option (List Fields)
unfolding strip splitlines split partition
parse_df block_size text = given text (elim (splitlines (strip text)) [
  | [] ↦ none
  | header ∷ lines ↦ or_none (read_each (λ line. partition block_size (split (strip line))) lines)
])
