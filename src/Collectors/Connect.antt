-- ===== src/Collectors/Connect.antt =====
-- `_build_connect_kwargs` of homeinfra/collectors.py: the secret that a connection is given.
use homeinfra_control_center.Prelude.{
  ℕ, Bool, not, Option, none, some, [], String, Text, txt, ◌==◌, is_empty, min, if◌then◌else◌,
}
use homeinfra_control_center.Prelude.Int.{ℤ}
use homeinfra_control_center.Model.State.{Device}
use homeinfra_control_center.Monitoring.Collections.{CollectorError}
use homeinfra_control_center.Collectors.Commands.{allow_stored_password_auth}

-- A call that may raise: it answers, raises a CollectorError, or raises another exception.
pub data Attempt (A : Type 0) : Type 0 where
  answered : A → Attempt A
  refused : CollectorError → Attempt A
  broke : Attempt A

abbrev pub collector_error : String → String → Option Text → CollectorError
collector_error message status reason = record {
  message = txt message;
  status = txt status;
  reason = reason;
}

-- `connect_kwargs`, of which one secret is set.
pub data Secret : Type 0 where
  key_filename : Text → Secret
  password : Text → Secret

pub record ConnectArguments : Type 0 where
  pub hostname : Text
  pub port : ℤ
  pub username : Text
  pub timeout : ℕ
  pub banner_timeout : ℕ
  pub auth_timeout : ℕ
  pub secret : Secret

-- The file system and the environment, as `_build_connect_kwargs` asks them.
pub record Host : Type 0 where
  pub expanduser : Text → Text
  pub exists : Text → Bool
  pub allow_stored_password : Option Text

abbrev pub missing_credential : String → CollectorError
missing_credential message = collector_error message "warning" (some (txt "missing_ssh_credential"))

abbrev pub text_of : Option Text → Text
text_of none = []
text_of (some s) = s

unfoldable pub key_secret : Host → Option Text → Attempt Secret
key_secret host path =
    if is_empty (text_of path)
    then refused (missing_credential "使用私钥认证时必须提供 SSH 私钥路径")
    else if not (host.exists (host.expanduser (text_of path)))
    then refused (missing_credential "SSH 私钥文件不存在或不可访问")
    else answered (key_filename (host.expanduser (text_of path)))

unfoldable pub password_secret : Host → Option Text → Attempt Secret
unfolding allow_stored_password_auth
password_secret host given =
    if text_of given == txt "__external_secret__"
    then refused (missing_credential "密码认证需要通过外部凭据源提供 SSH 凭据")
    else if is_empty (text_of given)
    then refused (missing_credential "密码认证需要提供 SSH 凭据")
    else if not (allow_stored_password_auth host.allow_stored_password)
    then refused (
        collector_error "密码认证已被配置禁用；如需启用，请设置 ALLOW_STORED_PASSWORD_AUTH=1" "warning"
          (some (txt "password_auth_disabled")))
    else answered (password (text_of given))

abbrev pub with_secret : Device → ℕ → Attempt Secret → Attempt ConnectArguments
with_secret d connect_timeout (refused e) = refused e
with_secret d connect_timeout broke = broke
with_secret d connect_timeout (answered secret) = answered (record {
  hostname = d.host;
  port = d.port;
  username = d.username;
  timeout = connect_timeout;
  banner_timeout = min 15 connect_timeout;
  auth_timeout = min 15 connect_timeout;
  secret = secret;
})

unfoldable pub build_connect_kwargs : Host → Device → ℕ → Attempt ConnectArguments
unfolding key_secret password_secret
build_connect_kwargs host d connect_timeout = with_secret d connect_timeout (
    if d.auth_type == txt "private_key"
    then key_secret host d.private_key_path
    else password_secret host d.password)
