-- ===== src/App/Requests.antt =====
-- The parsing of request bodies and of query values in homeinfra/app.py.
pub mod Bounds
use homeinfra_control_center.Prelude.{
  ℕ, zero, suc, ◌/◌, ltb, contains, Bool, true, false, ◌||◌, not, Option, none, some, List, [], ◌∷◌,
  Text, txt, ◌==◌, strip, lower, mem, is_empty, or_else, min, max, if◌then◌else◌,
}
use homeinfra_control_center.Prelude.Int.{ℤ, pos, negsuc, pos_part, ltb_ℤ, leb_ℤ}
use homeinfra_control_center.Errors.{Result, ok, err, validation_error, payload_too_large}
use homeinfra_control_center.Errors.Checked.{◌>>=◌}
use homeinfra_control_center.Model.Json.{
  Value, null, bool, int, dec, str, arr, obj, Items, Fields, end, get, get_or, lookup,
}
use homeinfra_control_center.Monitoring.Values.{truthy, power_of_ten}
use homeinfra_control_center.Parsers.Numbers.{parse_integer, opposite}
use homeinfra_control_center.Parsers.Text.{item}

abbrev pub max_json_body_bytes : ℕ
max_json_body_bytes = 1048576

-- What `json.loads(raw.decode("utf-8"))` came to.
pub data Decoded : Type 0 where
  decoded : Value → Decoded
  malformed : Decoded

-- `parse_json_object_body`, given whether the raw body is empty and what it decodes to.
unfoldable pub parse_json_object_body : Bool → Decoded → ℤ → Result Fields
parse_json_object_body is_raw_empty body (negsuc n) = err (validation_error "Content-Length 非法")
parse_json_object_body is_raw_empty body (pos zero) = ok end
parse_json_object_body is_raw_empty body (pos (suc n)) =
    if ltb max_json_body_bytes (suc n)
    then err (payload_too_large (suc n))
    else if is_raw_empty
    then ok end
    else elim body [
      | malformed ↦ err (validation_error "JSON 请求体格式错误")
      | decoded v ↦ elim v [ obj fields ↦ ok fields | _ ↦ err (validation_error "JSON 请求体必须是对象") ]
    ]

-- `parse_qs`: each key with its values.
abbrev pub UrlQuery : Type 0
UrlQuery = List (Text × List Text)

-- `query.get(key, [])`
abbrev pub values_of : Text → UrlQuery → List Text
values_of key [] = []
values_of key ((k, values) ∷ query) = if key == k then values else values_of key query

-- `query.get(key, [None])[0]`
abbrev pub query_value : Text → UrlQuery → Option Text
query_value key query = item 0 (values_of key query)

-- `max(1, min(value, maximum))`
abbrev pub clamp_limit : ℤ → ℕ → ℕ
clamp_limit value maximum = max 1 (min (pos_part value) maximum)

unfoldable pub parse_limit : Option Text → ℕ → Result ℕ
unfolding parse_integer
parse_limit none maximum = ok (min 50 maximum)
parse_limit (some raw) maximum = elim (parse_integer raw) [
  | none ↦ err (validation_error "limit 参数必须是整数")
  | some value ↦ ok (clamp_limit value maximum)
]

-- The limit of the audit log, which has a message of its own.
unfoldable pub parse_audit_limit : Text → Result ℕ
unfolding parse_integer
parse_audit_limit raw = elim (parse_integer raw) [
  | none ↦ err (validation_error "审计查询的 limit 参数必须是整数")
  | some value ↦ ok (clamp_limit value 100)
]

unfoldable pub parse_bool_query : Option Text → Result (Option Bool)
unfolding strip lower
parse_bool_query none = ok none
parse_bool_query (some raw) =
    let normalized = lower (strip raw) in
    if mem normalized (txt "true" ∷ txt "1" ∷ txt "yes" ∷ [])
    then ok (some true)
    else if mem normalized (txt "false" ∷ txt "0" ∷ txt "no" ∷ [])
    then ok (some false)
    else err (validation_error "enabled 查询参数必须是布尔值")

-- `int(v)` of a JSON value; `none` is a TypeError or a ValueError. A fraction is cut off.
unfoldable pub int_of : Value → Option ℤ
unfolding parse_integer
int_of (bool true) = some (pos 1)
int_of (bool false) = some (pos 0)
int_of (int z) = some z
int_of (dec (pos m) k) = some (pos (m / power_of_ten k))
int_of (dec (negsuc m) k) = some (opposite (suc m / power_of_ten k))
int_of (str s) = parse_integer s
int_of null = none
int_of (arr vs) = none
int_of (obj fs) = none

-- `raw_values[0] if raw_values else 5`
unfoldable pub timeout_value : Value → UrlQuery → Value
timeout_value null query = elim (query_value (txt "timeout") query) [
  | none ↦ int (pos 5)
  | some raw ↦ str raw
]
timeout_value v query = v

unfoldable pub checked_timeout : Option ℤ → Result ℕ
checked_timeout none = err (validation_error "timeout 必须是整数")
checked_timeout (some timeout) =
    if leb_ℤ timeout (pos 0) || ltb_ℤ (pos 30) timeout
    then err (validation_error "timeout 必须在 1-30 秒之间")
    else ok (pos_part timeout)

unfoldable pub parse_timeout : Fields → UrlQuery → Result ℕ
unfolding timeout_value get int_of checked_timeout
parse_timeout body query = checked_timeout (int_of (timeout_value (get (txt "timeout") body) query))

-- `extract_client_ip`, which reads no header.
unfoldable pub extract_client_ip : Option Text → Text
unfolding strip
extract_client_ip fallback =
    or_else (strip (or_else (elim fallback [ none ↦ [] | some s ↦ s ]) (txt "unknown")))
      (txt "unknown")

-- What `ensure_confirmation` tests.
unfoldable pub is_confirmed : Fields → Text → Bool
unfolding truthy get lower
is_confirmed body x_confirm = truthy (get (txt "confirm") body) || lower x_confirm == txt "true"

-- The two tests of `sanitize_ssh_validation_message`.
unfoldable pub sanitize_ssh_validation_message : Text → Text
unfolding lower contains
sanitize_ssh_validation_message message =
    if contains (txt "private_key_path") (lower message) || contains (txt "私钥文件不存在") message
    then txt "SSH 私钥文件不存在或不可访问"
    else message
