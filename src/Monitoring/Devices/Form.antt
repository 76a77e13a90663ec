-- ===== src/Monitoring/Devices/Form.antt =====
-- `_validate_device_payload` of homeinfra/monitoring.py, a helper for each kind of key, with the two
-- methods on credentials.
use homeinfra_control_center.Prelude.{
  Bool, true, false, ◌&&◌, ◌||◌, not, Option, none, some, List, [], ◌∷◌, Text, String, txt, ◌==◌,
  mem, strip, is_empty, if◌then◌else◌,
}
use homeinfra_control_center.Prelude.Int.{ℤ, pos, ltb_ℤ, leb_ℤ}
use homeinfra_control_center.Errors.{Result, ok, err, validation_error, type_error}
use homeinfra_control_center.Errors.Checked.{◌>>=◌, ◌>>◌, check}
use homeinfra_control_center.Model.Json.{
  Value, null, bool, int, str, arr, obj, Items, nil, cons, Fields, get, get_or, has,
}
use homeinfra_control_center.Monitoring.Lookup.{ungrouped_group_id}

abbrev pub valid_device_statuses : List Text
valid_device_statuses =
    txt "online"
    ∷ txt "offline"
    ∷ txt "warning"
    ∷ txt "unknown"
    ∷ txt "disabled"
    ∷ txt "unavailable"
    ∷ []

abbrev pub valid_auth_types : List Text
valid_auth_types = txt "password" ∷ txt "private_key" ∷ txt "none" ∷ []

abbrev pub valid_device_types : List Text
valid_device_types =
    txt "linux_server"
    ∷ txt "nas"
    ∷ txt "openwrt"
    ∷ txt "docker_host"
    ∷ txt "proxmox_host"
    ∷ txt "router"
    ∷ txt "mini_pc"
    ∷ txt "other"
    ∷ []

-- The dictionary `validated`: `none` is a missing key, `some none` is None. The value of the key
-- `inline_private_key` is always None.
pub record DeviceFields : Type 0 where
  pub name : Option Text
  pub host : Option Text
  pub port : Option ℤ
  pub username : Option Text
  pub auth_type : Option Text
  pub device_type : Option Text
  pub group_id : Option Text
  pub tags : Option (List Text)
  pub enabled : Option Bool
  pub collection_interval : Option ℤ
  pub id : Option Text
  pub password : Option (Option Text)
  pub private_key_path : Option (Option Text)
  pub inline_private_key : Bool
  pub last_seen : Option (Option Text)
  pub status : Option Text
  pub verified : Option Bool

unfoldable pub filled_text : String → Value → Result Text
unfolding strip
filled_text message (str s) =
    if is_empty (strip s) then err (validation_error message) else ok (strip s)
filled_text message _ = err (validation_error message)

unfoldable pub supported_type : Value → Result Text
unfolding strip
supported_type (str s) =
    if mem (strip s) valid_device_types
    then ok (strip s)
    else err (validation_error "device_type 不受支持")
supported_type _ = err (validation_error "device_type 不受支持")

-- `isinstance(v, int)`, which a Boolean is too.
abbrev pub integer : String → Value → Result ℤ
integer message (int z) = ok z
integer message (bool true) = ok (pos 1)
integer message (bool false) = ok (pos 0)
integer message _ = err (validation_error message)

unfoldable pub valid_port : Value → Result ℤ
valid_port v = do
  z ← integer "port 必须是 1-65535 之间的整数" v
  check (leb_ℤ (pos 1) z && leb_ℤ z (pos 65535)) (validation_error "port 必须是 1-65535 之间的整数")
  ok z

-- A list or a dictionary is no member of a set, and asking raises a TypeError.
unfoldable pub valid_auth_type : Value → Result Text
valid_auth_type (str s) =
    if mem s valid_auth_types then ok s else err (validation_error "auth_type 不受支持")
valid_auth_type (arr vs) = err type_error
valid_auth_type (obj fs) = err type_error
valid_auth_type _ = err (validation_error "auth_type 不受支持")

unfoldable pub tag_list : Items → Result (List Text)
unfolding strip
tag_list nil = ok []
tag_list (cons (str s) vs) = do
  rest ← tag_list vs
  ok (if is_empty (strip s) then rest else strip s ∷ rest)
tag_list (cons _ vs) = err (validation_error "tags 必须是字符串数组")

unfoldable pub valid_tags : Value → Result (List Text)
unfolding tag_list
valid_tags (arr vs) = tag_list vs
valid_tags _ = err (validation_error "tags 必须是字符串数组")

unfoldable pub boolean : String → Value → Result Bool
boolean message (bool b) = ok b
boolean message _ = err (validation_error message)

unfoldable pub valid_interval : Value → Result ℤ
valid_interval v = do
  z ← integer "collection_interval 必须是不小于 30 的整数" v
  check (leb_ℤ (pos 30) z) (validation_error "collection_interval 必须是不小于 30 的整数")
  ok z

unfoldable pub valid_poll_interval : Value → Result ℤ
valid_poll_interval v = do
  z ← integer "collection_interval 必须是正整数" v
  check (ltb_ℤ (pos 0) z) (validation_error "collection_interval 必须是正整数")
  ok z

-- `password`, `private_key_path` and `last_seen`: a filled text or null.
unfoldable pub text_or_null : String → Value → Result (Option Text)
unfolding filled_text
text_or_null message null = ok none
text_or_null message v = do s ← filled_text message v; ok (some s)

unfoldable pub no_inline_key : Value → Result (Unit {0})
no_inline_key null = ok tt
no_inline_key (str []) = ok tt
no_inline_key (arr vs) = err type_error
no_inline_key (obj fs) = err type_error
no_inline_key _ = err (validation_error "系统不接受内联 SSH 私钥，请改用外部私钥文件路径")

unfoldable pub valid_status : Value → Result Text
valid_status (str s) =
    if mem s valid_device_statuses then ok s else err (validation_error "status 不受支持")
valid_status _ = err (validation_error "status 不受支持")

abbrev pub some_of : {A : Type 0} → Result A → Result (Option A)
some_of (ok a) = ok (some a)
some_of (err e) = err e

-- `if present: validated[key] = ...`
abbrev pub when : {A : Type 0} → Bool → Result A → Result (Option A)
when present r = if present then some_of r else ok none

-- `collection_interval`, or `poll_interval` where only that key was sent.
unfoldable pub interval_field : Fields → Option ℤ → Result (Option ℤ)
unfolding has get valid_poll_interval
interval_field payload interval =
    if has (txt "poll_interval") payload && not (has (txt "collection_interval") payload)
    then some_of (valid_poll_interval (get (txt "poll_interval") payload))
    else ok interval

-- The key that is read where an old spelling may stand in for it.
abbrev pub spelled : Text → Text → Fields → Text
spelled key old payload = if has old payload && not (has key payload) then old else key

unfoldable pub device_fields : Fields → Bool → Result DeviceFields
unfolding get get_or has filled_text supported_type valid_port valid_auth_type valid_tags boolean
    valid_interval text_or_null no_inline_key valid_status interval_field
device_fields payload partial =
    let wanted : Text → Bool = λ key. not partial || has key payload in
    let key_path = spelled (txt "private_key_path") (txt "key_path") payload in
    let inline = spelled (txt "inline_private_key") (txt "encrypted_private_key") payload in
    do
      name ← when (wanted (txt "name")) (filled_text "name 必须是非空字符串" (get (txt "name") payload))
      host ← when (wanted (txt "host")) (filled_text "host 必须是非空字符串" (get (txt "host") payload))
      port ← when (wanted (txt "port")) (valid_port (get_or (int (pos 22)) (txt "port") payload))
      username ←
          when (wanted (txt "username")) (
            filled_text "username 必须是非空字符串" (get_or (str (txt "monitor")) (txt "username") payload))
      auth_type ←
          when (wanted (txt "auth_type"))
            (valid_auth_type (get_or (str (txt "none")) (txt "auth_type") payload))
      device_type ←
          when (wanted (txt "device_type"))
            (supported_type (get_or (str (txt "other")) (txt "device_type") payload))
      group_id ← when (wanted (txt "group_id")) (
          filled_text "group_id 必须是非空字符串"
            (get_or (str ungrouped_group_id) (txt "group_id") payload))
      tags ← when (wanted (txt "tags")) (valid_tags (get_or (arr nil) (txt "tags") payload))
      enabled ←
          when (wanted (txt "enabled"))
            (boolean "enabled 必须是布尔值" (get_or (bool true) (txt "enabled") payload))
      sent ←
          when (wanted (txt "collection_interval"))
            (valid_interval (get_or (int (pos 30)) (txt "collection_interval") payload))
      interval ← interval_field payload sent
      id ← when (has (txt "id") payload) (filled_text "id 必须是非空字符串" (get (txt "id") payload))
      password ←
          when (has (txt "password") payload)
            (text_or_null "SSH 密码必须是字符串或 null" (get (txt "password") payload))
      path ←
          when (has key_path payload) (text_or_null "SSH 私钥路径必须是字符串或 null" (get key_path payload))
      no_key ← when (has inline payload) (no_inline_key (get inline payload))
      last_seen ←
          when (has (txt "last_seen") payload)
            (text_or_null "last_seen 必须是 ISO 时间字符串或 null" (get (txt "last_seen") payload))
      status ← when (has (txt "status") payload) (valid_status (get (txt "status") payload))
      verified ←
          when (has (txt "verified") payload)
            (boolean "verified 必须是布尔值" (get (txt "verified") payload))
      ok (record {
        name = name;
        host = host;
        port = port;
        username = username;
        auth_type = auth_type;
        device_type = device_type;
        group_id = group_id;
        tags = tags;
        enabled = enabled;
        collection_interval = interval;
        id = id;
        password = password;
        private_key_path = path;
        inline_private_key = has inline payload;
        last_seen = last_seen;
        status = status;
        verified = verified;
      })

-- `bool(payload.get(key))`, of a text or None.
abbrev pub is_set : Option Text → Bool
is_set none = false
is_set (some s) = not (is_empty s)

abbrev pub is_given {ℓ} : {A : Type ℓ} → Option A → Bool
is_given none = false
is_given (some a) = true

-- The two keys that `_enforce_auth_shape` and `_normalize_stored_credentials` write; each is
-- either left or set to None.
pub record Secrets : Type 0 where
  pub password : Option Text
  pub private_key_path : Option Text

-- `_enforce_auth_shape`, for an authentication type that is present.
unfoldable pub enforce_auth_shape : Text → Secrets → Result Secrets
enforce_auth_shape auth_type secrets =
    if auth_type == txt "password"
    then (if is_set secrets.password
        then ok (record secrets { private_key_path = none })
        else err (validation_error "使用密码认证时必须提供 SSH 凭据"))
    else if auth_type == txt "private_key"
    then (if is_set secrets.private_key_path
        then ok (record secrets { password = none })
        else err (validation_error "使用私钥认证时必须提供 SSH 私钥路径"))
    else if auth_type == txt "none"
    then ok (record { password = none; private_key_path = none })
    else ok secrets

abbrev pub blank_to_none : Option Text → Option Text
blank_to_none (some []) = none
blank_to_none o = o

-- `_normalize_stored_credentials`
unfoldable pub normalize_stored_credentials : Text → Secrets → Secrets
normalize_stored_credentials auth_type secrets =
    if auth_type == txt "password"
    then record { password = blank_to_none secrets.password; private_key_path = none }
    else if auth_type == txt "private_key"
    then record secrets { password = none }
    else record { password = none; private_key_path = none }

abbrev pub flatten : Option (Option Text) → Option Text
flatten none = none
flatten (some o) = o

unfoldable pub secrets_of : DeviceFields → Secrets
secrets_of f = record {
  password = flatten f.password;
  private_key_path = flatten f.private_key_path;
}

-- A key that `_enforce_auth_shape` set to None is present from then on; an untouched one is not.
abbrev pub write_key : Option (Option Text) → Option Text → Option (Option Text)
write_key none none = some none
write_key before after = some after

-- The keys that are written for an authentication type.
unfoldable pub shaped : DeviceFields → Result DeviceFields
unfolding enforce_auth_shape secrets_of
shaped f = elim f.auth_type [
  | none ↦ ok f
  | some auth_type ↦ do
    secrets ← enforce_auth_shape auth_type (secrets_of f)
    ok (record f {
      password = write_key f.password secrets.password;
      private_key_path = write_key f.private_key_path secrets.private_key_path;
      inline_private_key = true;
    })
]

-- `not validated`
unfoldable pub has_no_fields : DeviceFields → Bool
has_no_fields f = not (
    is_given f.name
    || is_given f.host
    || is_given f.port
    || is_given f.username
    || is_given f.auth_type
    || is_given f.device_type
    || is_given f.group_id
    || is_given f.tags
    || is_given f.enabled
    || is_given f.collection_interval
    || is_given f.id
    || is_given f.password
    || is_given f.private_key_path
    || f.inline_private_key
    || is_given f.last_seen
    || is_given f.status
    || is_given f.verified)

-- `_validate_device_payload`, of a body that is a dictionary.
unfoldable pub validate_device_payload : Fields → Bool → Result DeviceFields
unfolding device_fields has_no_fields shaped
validate_device_payload payload partial = do
  f ← device_fields payload partial
  check (not (partial && has_no_fields f)) (validation_error "设备更新至少需要一个字段")
  shaped f
