-- ===== src/Parsers/Disks.antt =====
-- The parsers of homeinfra/parsers.py for lsblk and smartctl, which print JSON. `loads` stands for
-- `json.loads` (`none` is its JSONDecodeError) and `str_of` for `str(...)` of a value. A method
-- that a value does not have raises an AttributeError, which no parser catches but where said.
pub mod Alerting
use homeinfra_control_center.Prelude.{
  ℕ, ◌*◌, Bool, true, false, ◌&&◌, not, Option, none, some, List, [], ◌∷◌, Text, txt, ◌==◌,
  is_empty, if◌then◌else◌, take, keep, map,
}
use homeinfra_control_center.Prelude.Int.{ℤ, pos}
use homeinfra_control_center.Errors.{Result, ok, err, type_error}
use homeinfra_control_center.Errors.Checked.{◌>>=◌}
use homeinfra_control_center.Model.Json.{
  Value, null, bool, int, dec, str, arr, obj, nil, cons, Fields, end, field, get, get_or,
}
use homeinfra_control_center.Monitoring.Values.{truthy, number, dictionaries}
use homeinfra_control_center.Parsers.Numbers.{Fraction, gigabytes, float_value}
use homeinfra_control_center.Parsers.Tables.{dict, or_none}

-- `v or default`
abbrev pub value_or : Value → Value → Value
value_or v default = if truthy v then v else default

abbrev pub empty : Value
empty = str []

-- `v / (1024 ** 3)` asks for a number.
unfoldable pub size_gb : Value → Result Value
unfolding truthy gigabytes
size_gb v = do
  (num, den) ← number (value_or v (int (pos 0)))
  ok (float_value (gigabytes (record { num = num; den = den })))

unfoldable pub block_device : Fields → Result Fields
unfolding size_gb get get_or truthy
block_device dev = do
  size ← size_gb (get (txt "size") dev)
  ok (
      dict (
        ("name", get_or empty (txt "name") dev)
        ∷ ("size_gb", size)
        ∷ ("type", get_or empty (txt "type") dev)
        ∷ ("mountpoint", value_or (get (txt "mountpoint") dev) empty)
        ∷ ("fstype", value_or (get (txt "fstype") dev) empty)
        ∷ ("model", value_or (get (txt "model") dev) empty)
        ∷ ("serial", value_or (get (txt "serial") dev) empty)
        ∷ ("rotational", bool (truthy (get (txt "rota") dev)))
        ∷ ("transport", value_or (get (txt "tran") dev) empty)
        ∷ []))

unfoldable pub block_devices : List Fields → Result (List Fields)
unfolding block_device
block_devices [] = ok []
block_devices (dev ∷ devices) = do
  row ← block_device dev
  rows ← block_devices devices
  ok (row ∷ rows)

-- `root.get(key, [])`
unfoldable pub list_of : Text → Value → Result (List Fields)
unfolding get_or dictionaries
list_of key (obj root) = dictionaries (get_or (arr nil) key root)
list_of key _ = err type_error

module _ (loads : Text → Option Value) where
  -- The root of the JSON text, if there is one.
  unfoldable pub root_of : Text → Option Value
  root_of text = if is_empty text then none else loads text

  unfoldable pub parse_lsblk_json : Text → Result (Option (List Fields))
  unfolding root_of list_of block_devices
  parse_lsblk_json text = elim (root_of text) [
    | none ↦ ok none
    | some root ↦ do
      devices ← list_of (txt "blockdevices") root
      rows ← block_devices devices
      ok (or_none rows)
  ]

  -- The names that are there, as they stand in the JSON.
  unfoldable pub parse_smartctl_scan_json : Text → Result (Option (List Value))
  unfolding root_of list_of truthy get
  parse_smartctl_scan_json text = elim (root_of text) [
    | none ↦ ok none
    | some root ↦ do
      devices ← list_of (txt "devices") root
      ok (or_none (keep truthy (map (get (txt "name")) devices)))
  ]

-- The table of the attributes. The second look-up of the source reads the same keys with defaults,
-- so it ends with None wherever the first found nothing or an empty table.
unfoldable pub attribute_table : Value → Option Value
unfolding get truthy
attribute_table (obj root) = elim (get (txt "ata_smart_attributes") root) [
  | obj attributes ↦
      let table = get (txt "table") attributes in if truthy table then some table else none
  | _ ↦ none
]
attribute_table _ = none

-- `status and status != "" and status != "-"`
unfoldable pub is_failed : Value → Bool
unfolding truthy
is_failed (str s) = not (is_empty s) && not (s == txt "-")
is_failed v = truthy v

module _ (str_of : Value → Text) where
  -- `attr.get("raw", {})`, as text.
  unfoldable pub raw_text : Value → Text
  unfolding get_or
  raw_text (obj raw) = str_of (get_or (get_or empty (txt "value") raw) (txt "string") raw)
  raw_text raw = str_of raw

  unfoldable pub smart_attribute : Fields → Fields
  unfolding get get_or raw_text is_failed
  smart_attribute attr = dict (
      ("attr_name", get_or empty (txt "name") attr)
      ∷ ("value", get (txt "value") attr)
      ∷ ("threshold", get (txt "thresh") attr)
      ∷ ("raw", str (take 120 (raw_text (get_or (obj end) (txt "raw") attr))))
      ∷ (
        "status",
        str (
            if is_failed (get_or empty (txt "when_failed") attr)
            then txt "FAILED"
            else txt "PASSED"),
      )
      ∷ [])

  unfoldable pub parse_smartctl_health_json :
      (Text → Option Value) → Text → Result (Option (List Fields))
  parse_smartctl_health_json loads text = elim (root_of loads text) [
    | none ↦ ok none
    | some root ↦ elim (attribute_table root) [
      | none ↦ ok none
      | some table ↦ do
        attributes ← dictionaries table
        ok (or_none (map smart_attribute attributes))
    ]
  ]
