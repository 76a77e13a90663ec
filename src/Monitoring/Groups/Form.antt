-- ===== src/Monitoring/Groups/Form.antt =====
-- `_validate_group_payload` of homeinfra/monitoring.py, a helper for each key.
use homeinfra_control_center.Prelude.{
  Bool, true, false, ◌&&◌, ◌||◌, not, Option, none, some, [], Text, String, txt, strip, or_else,
  is_empty, if◌then◌else◌,
}
use homeinfra_control_center.Prelude.Int.{ℤ, pos}
use homeinfra_control_center.Errors.{Result, ok, err, validation_error}
use homeinfra_control_center.Errors.Checked.{◌>>=◌}
use homeinfra_control_center.Model.Json.{Value, null, bool, int, str, obj, Fields, get, has}

-- The dictionary `validated`: `none` is a missing key.
pub record GroupFields : Type 0 where
  pub id : Option Text
  pub name : Option Text
  pub description : Option Text
  pub color : Option Text
  pub icon : Option Text
  pub sort_order : Option ℤ

-- A text that has to be more than white space, stripped.
unfoldable pub filled : Value → String → Result Text
unfolding strip
filled (str s) message = if is_empty (strip s) then err (validation_error message) else ok (strip s)
filled _ message = err (validation_error message)

abbrev pub some_of : {A : Type 0} → Result A → Result (Option A)
some_of (ok a) = ok (some a)
some_of (err e) = err e

unfoldable pub group_id : Value → Result (Option Text)
unfolding filled
group_id null = ok none
group_id v = some_of (filled v "设备分组 id 必须是非空字符串")

unfoldable pub description : Value → Result Text
unfolding strip
description null = ok []
description (str s) = ok (strip s)
description _ = err (validation_error "设备分组 description 必须是字符串")

-- `color` and `icon`, with their defaults.
unfoldable pub with_default : Text → String → Value → Result Text
unfolding strip
with_default default message null = ok (or_else (strip default) default)
with_default default message (str s) = ok (or_else (strip s) default)
with_default default message _ = err (validation_error message)

-- `isinstance(v, int)`, which a Boolean is too.
unfoldable pub sort_order : Value → Result ℤ
sort_order (int z) = ok z
sort_order (bool true) = ok (pos 1)
sort_order (bool false) = ok (pos 0)
sort_order _ = err (validation_error "设备分组 sort_order 必须是整数")

-- `if key in payload`
abbrev pub when : {A : Type 0} → Bool → Result A → Result (Option A)
when present r = if present then some_of r else ok none

unfoldable pub group_fields : Fields → Bool → Result GroupFields
unfolding get has group_id filled description with_default sort_order
group_fields payload partial = do
  id ← if not partial || has (txt "id") payload then group_id (get (txt "id") payload) else ok none
  name ←
      when (not partial || has (txt "name") payload)
        (filled (get (txt "name") payload) "设备分组 name 必须是非空字符串")
  text ← when (has (txt "description") payload) (description (get (txt "description") payload))
  color ←
      when (has (txt "color") payload)
        (with_default (txt "#7da38f") "设备分组 color 必须是字符串" (get (txt "color") payload))
  icon ←
      when (has (txt "icon") payload)
        (with_default (txt "server") "设备分组 icon 必须是字符串" (get (txt "icon") payload))
  order ← when (has (txt "sort_order") payload) (sort_order (get (txt "sort_order") payload))
  ok (record {
    id = id;
    name = name;
    description = text;
    color = color;
    icon = icon;
    sort_order = order;
  })

abbrev pub is_given {ℓ} : {A : Type ℓ} → Option A → Bool
is_given none = false
is_given (some a) = true

-- `not validated`
unfoldable pub has_no_fields : GroupFields → Bool
has_no_fields f = not (
    is_given f.id
    || is_given f.name
    || is_given f.description
    || is_given f.color
    || is_given f.icon
    || is_given f.sort_order)

-- `_validate_group_payload`
unfoldable pub validate_group_payload : Value → Bool → Result GroupFields
unfolding group_fields has_no_fields
validate_group_payload (obj payload) partial = elim (group_fields payload partial) [
  | err e ↦ err e
  | ok f ↦ if partial && has_no_fields f then err (validation_error "设备分组更新至少需要一个字段") else ok f
]
validate_group_payload _ partial = err (validation_error "设备分组请求体必须是对象")
