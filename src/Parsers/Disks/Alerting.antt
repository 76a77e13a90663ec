-- ===== src/Parsers/Disks/Alerting.antt =====
-- What `evaluate_smart_alert` makes of the attributes that `parse_smartctl_health_json` reads.
use homeinfra_control_center.Prelude.{
  ℕ, ◌≤◌, ◌≡◌, refl, arith, false, Option, none, some, List, [], ◌∷◌, Text, txt, ◌==◌, All, map,
  subst,
}
use homeinfra_control_center.Errors.{Result, ok}
use homeinfra_control_center.Model.Json.{
  Value, str, arr, obj, Items, nil, cons, Fields, get, get_or, lookup,
}
use homeinfra_control_center.Monitoring.Values.{Check, dictionaries, dictionaries_of}
use homeinfra_control_center.Monitoring.Smart.{
  label_of, smart_critical_attrs, smart_warning_attrs, check_attribute, check_attribute_status,
  first_check, attributes_check, evaluate_smart_alert,
}
use homeinfra_control_center.Parsers.Disks.{
  smart_attribute, is_failed, empty, root_of, attribute_table, parse_smartctl_health_json,
}
use homeinfra_control_center.Parsers.Tables.{dict, or_none, or_none-some}

-- A name with a capital first, as smartctl prints it, is no key of the two tables.
no_label :
    (c : ℕ) (s : Text)
    → c ≤ b'Z'
    → (label_of (c ∷ s) smart_critical_attrs ≡ none) × (label_of (c ∷ s) smart_warning_attrs ≡ none)
unfolding ◌==◌
no_label c s h = (ground arith, ground arith)

-- The name of an attribute begins with a capital, and no failure is reported.
pub record IsHealthy (attr : Fields) : Type 0 where
  pub first : ℕ
  pub rest : Text
  pub named : get_or empty (txt "name") attr ≡ str (first ∷ rest)
  pub capital : first ≤ b'Z'
  pub passed : is_failed (get_or empty (txt "when_failed") attr) ≡ false

-- The list of dictionaries, as it stands in a payload.
abbrev pub rows_value : List Fields → Items
rows_value [] = nil
rows_value (row ∷ rows) = cons (obj row) (rows_value rows)

dictionaries_of-rows : (rows : List Fields) → dictionaries_of (rows_value rows) ≡ ok rows
unfolding dictionaries_of
dictionaries_of-rows [] = refl
dictionaries_of-rows (row ∷ rows) = rw (dictionaries_of-rows rows) refl

module _ (str_of : Value → Text) where
  check_attribute-none :
      (attr : Fields) → IsHealthy attr → check_attribute (smart_attribute str_of attr) ≡ ok none
  unfolding check_attribute smart_attribute get_or lookup ◌==◌
  check_attribute-none attr h = rw h.named (ground (arith, no_label h.first h.rest))

  check_attribute_status-none :
      (attr : Fields)
      → IsHealthy attr
      → check_attribute_status (smart_attribute str_of attr) ≡ ok none
  unfolding check_attribute_status smart_attribute get_or lookup ◌==◌
  check_attribute_status-none attr h = rw h.passed refl

  first_check-none :
      (f : Fields → Result (Option Check)) (attrs : List Fields)
      → ((attr : Fields) → IsHealthy attr → f (smart_attribute str_of attr) ≡ ok none)
      → All IsHealthy attrs
      → first_check f (map (smart_attribute str_of) attrs) ≡ ok none
  first_check-none f [] each h = refl
  first_check-none f (attr ∷ attrs) each h = rw (each attr h.0) (first_check-none f attrs each h.1)

  attributes_check-none :
      (attrs : List Fields)
      → All IsHealthy attrs
      → attributes_check (arr (rows_value (map (smart_attribute str_of) attrs))) ≡ ok none
  unfolding attributes_check dictionaries
  attributes_check-none attrs h =
      rw
        (
          dictionaries_of-rows (map (smart_attribute str_of) attrs),
          first_check-none check_attribute attrs check_attribute-none h,
          first_check-none check_attribute_status attrs check_attribute_status-none h,
        )
        refl

  parsed_rows :
      (loads : Text → Option Value) (text : Text) {root table : Value} {attrs rows : List Fields}
      → root_of loads text ≡ some root
      → attribute_table root ≡ some table
      → dictionaries table ≡ ok attrs
      → parse_smartctl_health_json str_of loads text ≡ ok (some rows)
      → map (smart_attribute str_of) attrs ≡ rows
  unfolding parse_smartctl_health_json
  parsed_rows loads text {root} {table} {attrs} {rows} r t d e =
      let listed : or_none (map (smart_attribute str_of) attrs) ≡ some rows = ground arith in
      or_none-some (map (smart_attribute str_of) attrs) listed

  -- Where every attribute of the SMART table has a name that begins with a character up to `Z`
  -- and reports no failure, the rows that the parser makes give no SMART alert, whatever the
  -- raw values are.
  pub raw_values_ignored :
      (loads : Text → Option Value) (text : Text) {root table : Value} {attrs rows : List Fields}
      → root_of loads text ≡ some root
      → attribute_table root ≡ some table
      → dictionaries table ≡ ok attrs
      → All IsHealthy attrs
      → parse_smartctl_health_json str_of loads text ≡ ok (some rows)
      → evaluate_smart_alert (dict (("smart_attributes", arr (rows_value rows)) ∷ [])) ≡ ok none
  unfolding evaluate_smart_alert get_or lookup ◌==◌ get
  raw_values_ignored loads text {root} {table} {attrs} {rows} r t d h e =
      let made = parsed_rows loads text r t d e in
      subst (λ (rs : List Fields). attributes_check (arr (rows_value rs)) ≡ ok none) made
        (attributes_check-none attrs h)
