-- ===== src/Monitoring/Smart.antt =====
-- `evaluate_smart_alert` of homeinfra/monitoring.py.
use homeinfra_control_center.Prelude.{
  Bool, true, false, ◌&&◌, not, Option, none, some, List, [], ◌∷◌, ◌++◌, String, Text, txt, ◌==◌,
  mem, if◌then◌else◌,
}
use homeinfra_control_center.Prelude.Int.{pos}
use homeinfra_control_center.Errors.{Result, ok, err, type_error}
use homeinfra_control_center.Errors.Checked.{◌>>=◌}
use homeinfra_control_center.Model.Json.{Value, int, str, arr, nil, Fields, get, get_or}
use homeinfra_control_center.Model.State.{lit, shown}
use homeinfra_control_center.Monitoring.Values.{
  Check, exceeds, gt, is_number, truthy, is_hashable, dictionaries,
}

-- The dictionaries from an attribute to its name.
abbrev pub Labels : Type 0
Labels = List (Text × String)

abbrev pub label_of : Text → Labels → Option String
label_of key [] = none
label_of key ((k, label) ∷ labels) = if key == k then some label else label_of key labels

abbrev pub smart_critical_attrs : Labels
smart_critical_attrs =
    (txt "reallocated_sector_ct", "重新分配扇区数")
    ∷ (txt "current_pending_sector", "当前待处理扇区")
    ∷ (txt "offline_uncorrectable", "离线不可纠正扇区")
    ∷ (txt "reallocated_event_count", "重新分配事件计数")
    ∷ (txt "spin_retry_count", "自旋重试次数")
    ∷ (txt "end_to_end_error", "端到端错误")
    ∷ (txt "reported_uncorrect", "报告不可纠正错误")
    ∷ (txt "command_timeout", "命令超时")
    ∷ (txt "high_fly_writes", "高飞写入")
    ∷ []

abbrev pub smart_warning_attrs : Labels
smart_warning_attrs =
    (txt "temperature_celsius", "磁盘温度")
    ∷ (txt "seek_error_rate", "寻道错误率")
    ∷ (txt "read_error_rate", "读取错误率")
    ∷ (txt "write_error_rate", "写入错误率")
    ∷ (txt "hardware_ecc_recovered", "硬件 ECC 恢复")
    ∷ []

-- `v in labels`: a list or a dictionary cannot be hashed, and another value is no key.
unfoldable pub attribute_in : Value → Labels → Result (Option (Text × String))
unfolding is_hashable
attribute_in (str s) labels = elim (label_of s labels) [
  | none ↦ ok none
  | some label ↦ ok (some (s, label))
]
attribute_in v labels = if is_hashable v then ok none else err type_error

-- `v and v not in texts`
unfoldable pub is_bad_status : Value → List Text → Result Bool
unfolding truthy is_hashable
is_bad_status (str s) texts = ok (truthy (str s) && not (mem s texts))
is_bad_status v texts =
    if truthy v then (if is_hashable v then ok true else err type_error) else ok false

-- `name in SMART_CRITICAL_ATTRS and raw_val > 0`
unfoldable pub check_critical_attr : Fields → Result (Option Check)
unfolding attribute_in exceeds
check_critical_attr attr =
    let raw = get_or (int (pos 0)) (txt "raw") attr in
    do
      known ← attribute_in (get_or (str (txt "")) (txt "attr_name") attr) smart_critical_attrs
      elim known [
        | none ↦ ok none
        | some (name, label) ↦ do
          high ← exceeds raw 0
          ok (
              if high
              then some (record {
                severity = txt "critical";
                type = txt "smart_" ++ name;
                title = lit "SMART " ∷ lit label ∷ lit " 异常" ∷ [];
                message = lit label ∷ lit " = " ∷ shown raw ∷ lit "，磁盘可能出现故障" ∷ [];
              })
              else none)
      ]

-- `isinstance(threshold, (int, float)) and raw_val > threshold`
unfoldable pub is_over_threshold : Value → Value → Result Bool
unfolding is_number gt
is_over_threshold raw threshold = if is_number threshold then gt raw threshold else ok false

-- `name in SMART_WARNING_ATTRS and raw_val > 0`
unfoldable pub check_warning_attr : Fields → Result (Option Check)
unfolding attribute_in exceeds is_over_threshold
check_warning_attr attr =
    let raw = get_or (int (pos 0)) (txt "raw") attr in
    let threshold = get_or (int (pos 0)) (txt "threshold") attr in
    do
      known ← attribute_in (get_or (str (txt "")) (txt "attr_name") attr) smart_warning_attrs
      elim known [
        | none ↦ ok none
        | some (name, label) ↦ do
          positive ← exceeds raw 0
          high ← if positive then is_over_threshold raw threshold else ok false
          ok (
              if high
              then some (record {
                severity = txt "warning";
                type = txt "smart_" ++ name;
                title = lit "SMART " ∷ lit label ∷ lit " 偏高" ∷ [];
                message = lit label ∷ lit " = " ∷ shown raw ∷ lit "，超过阈值 " ∷ shown threshold ∷ [];
              })
              else none)
      ]

-- The body of the first loop.
unfoldable pub check_attribute : Fields → Result (Option Check)
unfolding check_critical_attr check_warning_attr
check_attribute attr = do
  found ← check_critical_attr attr
  elim found [ some check ↦ ok (some check) | none ↦ check_warning_attr attr ]

-- What `f"smart_{name}"` prints; the collectors leave a text or None as the name.
abbrev pub printed_name : Value → Text
printed_name (str s) = s
printed_name _ = txt "None"

-- The body of the second loop.
unfoldable pub check_attribute_status : Fields → Result (Option Check)
unfolding is_bad_status
check_attribute_status attr =
    let name = get (txt "attr_name") attr in
    let health = get (txt "status") attr in
    do
      bad ← is_bad_status health (txt "" ∷ txt "ok" ∷ txt "healthy" ∷ txt "PASSED" ∷ [])
      ok (
          if bad
          then some (record {
            severity = txt "critical";
            type =
                txt "smart_" ++ printed_name (get_or (str (txt "unknown")) (txt "attr_name") attr);
            title = lit "SMART 属性 " ∷ shown name ∷ lit " 告警" ∷ [];
            message = lit "SMART " ∷ shown name ∷ lit " 状态: " ∷ shown health ∷ [];
          })
          else none)

-- A loop that returns the first check.
abbrev pub first_check : (Fields → Result (Option Check)) → List Fields → Result (Option Check)
first_check f [] = ok none
first_check f (attr ∷ attrs) = do
  found ← f attr
  elim found [ some check ↦ ok (some check) | none ↦ first_check f attrs ]

unfoldable pub smart_status_check : Value → Check
smart_status_check smart_status = record {
  severity = txt "critical";
  type = txt "smart_abnormal";
  title = lit "SMART 状态异常" ∷ [];
  message = lit "SMART 状态异常：" ∷ shown smart_status ∷ [];
}

unfoldable pub attributes_check : Value → Result (Option Check)
unfolding dictionaries check_attribute check_attribute_status
attributes_check attributes = do
  attrs ← dictionaries attributes
  found ← first_check check_attribute attrs
  elim found [ some check ↦ ok (some check) | none ↦ first_check check_attribute_status attrs ]

unfoldable pub evaluate_smart_alert : Fields → Result (Option Check)
unfolding is_bad_status attributes_check
evaluate_smart_alert metrics =
    let smart_status = get (txt "smart_status") metrics in
    do
      bad ← is_bad_status smart_status (txt "healthy" ∷ txt "ok" ∷ [])
      if bad
          then ok (some (smart_status_check smart_status))
          else attributes_check (get_or (arr nil) (txt "smart_attributes") metrics)
