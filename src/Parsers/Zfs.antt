-- ===== src/Parsers/Zfs.antt =====
-- The ZFS parsers of homeinfra/parsers.py: `zpool list`, `zpool status` as JSON and as text, and
-- `zfs list`.
use homeinfra_control_center.Prelude.{
  Option, none, some, List, [], ◌∷◌, ◌++◌, Text, txt, strip, mem, starts_with, if◌then◌else◌,
  or_else,
}
use homeinfra_control_center.Prelude.Int.{pos}
use homeinfra_control_center.Errors.{Result, ok, err, type_error}
use homeinfra_control_center.Model.Json.{Value, dec, str, obj, Fields, end, field, get_or, lookup}
use homeinfra_control_center.Parsers.Text.{splitlines, split_on, before_first, after_first}
use homeinfra_control_center.Parsers.Numbers.{
  parse_integer, parse_float, of_decimal, of_integer, round, gigabytes, float_value,
}
use homeinfra_control_center.Parsers.System.{float_or_zero}
use homeinfra_control_center.Parsers.Raid.{behind_colon}
use homeinfra_control_center.Parsers.Disks.{empty, value_or, root_of}
use homeinfra_control_center.Parsers.Tables.{dict, given, or_none, read_each, ◌>>=◌}

-- The columns that stand between tabs.
unfoldable pub pool_row : List Text → Option Fields
unfolding parse_integer parse_float gigabytes round
pool_row (name ∷ size ∷ allocated ∷ free ∷ c4 ∷ c5 ∷ c6 ∷ capacity ∷ c8 ∷ health ∷ columns) = do
  size_bytes ← parse_integer size
  allocated_bytes ← parse_integer allocated
  free_bytes ← parse_integer free
  capacity_pct ← float_or_zero capacity
  some (
      dict (
        ("name", str name)
        ∷ ("size_gb", float_value (gigabytes (of_integer size_bytes)))
        ∷ ("used_gb", float_value (gigabytes (of_integer allocated_bytes)))
        ∷ ("free_gb", float_value (gigabytes (of_integer free_bytes)))
        ∷ ("usage_percent", float_value (round 1 (of_decimal capacity_pct)))
        ∷ ("health_state", str (or_else health (txt "UNKNOWN")))
        ∷ ("compression_ratio", dec (pos 1) 0)
        ∷ []))
pool_row _ = none

unfoldable pub parse_zpool_list : Text → Option (List Fields)
unfolding strip splitlines split_on pool_row
parse_zpool_list text =
    given text (or_none (read_each (λ line. pool_row (split_on 9 line)) (splitlines (strip text))))

-- The entry of a pool, whose value has to be a dictionary.
unfoldable pub pool_status : Text → Value → Result Fields
unfolding get_or
pool_status pool_name (obj pool) = ok (
    dict (
      ("name", str pool_name)
      ∷ ("health_state", get_or (str (txt "UNKNOWN")) (txt "health") pool)
      ∷ ("scan_status", value_or (get_or empty (txt "scan") pool) empty)
      ∷ []))
pool_status pool_name _ = err type_error

unfoldable pub pool_statuses : Fields → Result (List Fields)
unfolding pool_status
pool_statuses end = ok []
pool_statuses (field pool_name pool pools) = elim (pool_status pool_name pool) [
  | err e ↦ err e
  | ok row ↦ elim (pool_statuses pools) [ err e ↦ err e | ok rows ↦ ok (row ∷ rows) ]
]

-- `root.get("pools", root) if isinstance(root, dict) else {}`, if that is a dictionary.
unfoldable pub pools_of : Value → Fields
unfolding lookup
pools_of (obj root) = elim (lookup (txt "pools") root) [
  | none ↦ root
  | some (obj pools) ↦ pools
  | some other ↦ end
]
pools_of _ = end

unfoldable pub parse_zpool_status_json :
    (Text → Option Value) → Text → Result (Option (List Fields))
unfolding root_of pools_of pool_statuses
parse_zpool_status_json loads text = elim (root_of loads text) [
  | none ↦ ok none
  | some root ↦ elim (pool_statuses (pools_of root)) [ err e ↦ err e | ok rows ↦ ok (or_none rows) ]
]

pub record PoolStatus : Type 0 where
  pub name : Text
  pub health_state : Text
  pub scan_status : Text

-- The list and the pool that the loop is in.
pub record Pools : Type 0 where
  pub result : List PoolStatus
  pub current : Option PoolStatus

-- `if current is not None: result.append(current)`
abbrev pub finished_pools : Pools → List PoolStatus
finished_pools s = elim s.current [ none ↦ s.result | some pool ↦ s.result ++ (pool ∷ []) ]

-- `line.split(":", 1)[1].strip()`
unfoldable pub value_of_line : Text → Text
unfolding strip after_first
value_of_line line = strip (behind_colon line)

unfoldable pub scan_status_line : Text → Pools → Pools
unfolding starts_with value_of_line
scan_status_line line s =
    if starts_with (txt "pool:") line
    then record {
      result = finished_pools s;
      current =
          some
            (record { name = value_of_line line; health_state = txt "UNKNOWN"; scan_status = [] });
    }
    else elim s.current [
      | none ↦ s
      | some pool ↦
          if starts_with (txt "state:") line
          then record s {
            current =
                some (record pool { health_state = or_else (value_of_line line) (txt "UNKNOWN") });
          }
          else if starts_with (txt "scan:") line
          then record s { current = some (record pool { scan_status = value_of_line line }) }
          else s
    ]

unfoldable pub scan_status_lines : List Text → Pools → Pools
unfolding strip scan_status_line
scan_status_lines [] s = s
scan_status_lines (raw ∷ lines) s = scan_status_lines lines (scan_status_line (strip raw) s)

unfoldable pub parse_zpool_status_text : Text → Option (List PoolStatus)
unfolding splitlines scan_status_lines
parse_zpool_status_text text = given text (
    or_none (
      finished_pools
        (scan_status_lines (splitlines text) (record { result = []; current = none }))))

-- A row of `zfs list` with its type.
unfoldable pub dataset_row : List Text → Option (Text × Fields)
unfolding parse_integer gigabytes before_first
dataset_row (name ∷ ds_type ∷ used ∷ available ∷ c4 ∷ c5 ∷ creation ∷ columns) = do
  used_bytes ← parse_integer used
  avail_bytes ← parse_integer available
  some (
    ds_type,
    dict (
        ("name", str name)
        ∷ ("pool", str (before_first b'/' name))
        ∷ ("used_gb", float_value (gigabytes (of_integer used_bytes)))
        ∷ ("available_gb", float_value (gigabytes (of_integer avail_bytes)))
        ∷ ("creation", str creation)
        ∷ []),
  )
dataset_row _ = none

pub record Datasets : Type 0 where
  pub volumes : List Fields
  pub snapshots : List Fields

abbrev pub of_type : List Text → List (Text × Fields) → List Fields
of_type types [] = []
of_type types ((ds_type, entry) ∷ rows) =
    if mem ds_type types then entry ∷ of_type types rows else of_type types rows

-- The two lists of the loop hold the rows of their types, in the order of the lines.
unfoldable pub datasets : List (Text × Fields) → Datasets
datasets rows = record {
  volumes = of_type (txt "filesystem" ∷ txt "volume" ∷ []) rows;
  snapshots = of_type (txt "snapshot" ∷ []) rows;
}

abbrev pub datasets_or_none : Datasets → Option Datasets
datasets_or_none d = elim d.volumes [
  | v ∷ vs ↦ some d
  | [] ↦ elim d.snapshots [ s ∷ ss ↦ some d | [] ↦ none ]
]

unfoldable pub parse_zfs_list : Text → Option Datasets
unfolding strip splitlines split_on dataset_row datasets
parse_zfs_list text = given text (
    datasets_or_none
      (datasets (read_each (λ line. dataset_row (split_on 9 line)) (splitlines (strip text)))))
