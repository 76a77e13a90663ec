-- ===== src/App/Startup.antt =====
-- The choice of the collector in homeinfra/app.py, the check of a new device, and the counters.
use homeinfra_control_center.Prelude.{
  ℕ, suc, Bool, true, false, not, Option, none, some, [], ◌∷◌, String, Text, txt, ◌==◌, strip,
  lower, mem, is_empty, if◌then◌else◌,
}
use homeinfra_control_center.Errors.{
  Result, ok, err, validation_error, confirmation_required, key_error,
}
use homeinfra_control_center.Effects.{Action, gets, modify, or_throw, pure, throw, ◌>>=◌, ◌>>◌}
use homeinfra_control_center.Model.Json.{Value, bool, str, Fields, get_or, set}
use homeinfra_control_center.Model.State.{State}
use homeinfra_control_center.Model.Metrics.{increment, metric}
use homeinfra_control_center.Auth.Access.{text_or_empty}
use homeinfra_control_center.App.Requests.{is_confirmed}

-- `resolve_collector_mode`, given the variable COLLECTOR_MODE; `none` is its ValueError.
unfoldable pub resolve_collector_mode : Option Text → Option Text → Option Text
unfolding strip lower
resolve_collector_mode collector_mode env_mode =
    let given = text_or_empty collector_mode in
    let env = strip (text_or_empty env_mode) in
    let normalized =
      if not (is_empty given)
      then lower (strip given)
      else if is_empty env
      then txt "ssh"
      else lower env in
    if mem normalized (txt "ssh" ∷ txt "disabled" ∷ []) then some normalized else none

-- What `quick_verify` of an SSH collector came to: the outputs of `hostname` and `uname`, or the
-- message of a CollectorError.
pub data Verified : Type 0 where
  outputs : (hostname uname : Text) → Verified
  refused : Text → Verified

-- The collector service: none, one with another collector, or one over SSH.
pub data Collecting : Type 0 where
  no_service : Collecting
  other_collector : Collecting
  over_ssh : (Fields → Verified) → Collecting

-- `body.update({"verified": ..., "status": ...})`
abbrev pub with_state : Bool → String → Fields → Fields
with_state verified status body =
    set (txt "status") (str (txt status)) (set (txt "verified") (bool verified) body)

-- The check of `auth_type` asks for the text `none`, the default.
abbrev pub has_no_auth : Value → Bool
has_no_auth (str s) = s == txt "none"
has_no_auth _ = false

abbrev pub verified_body : Verified → Fields → Result Fields
verified_body (refused message) body = err (validation_error "SSH 验证失败：{}")
verified_body (outputs hostname uname) body =
    if is_empty (strip hostname)
    then (if is_empty (strip uname)
        then err (validation_error "SSH 验证失败：无法获取 hostname 或 uname")
        else ok (with_state true "online" body))
    else ok (with_state true "online" body)

-- `_prepare_device_creation_state`, and the update of the body with its answer.
unfoldable pub prepare_device : Text → Collecting → Fields → Result Fields
unfolding get_or set strip
prepare_device mode collecting body =
    if mode == txt "disabled" then ok (with_state false "disabled" body) else elim collecting [
      | no_service ↦ err (validation_error "SSH 采集器未初始化")
      | other_collector ↦ ok (with_state false "unknown" body)
      | over_ssh quick_verify ↦
          if has_no_auth (get_or (str (txt "none")) (txt "auth_type") body)
          then err (validation_error "SSH 模式下必须提供可用的认证方式")
          else verified_body (quick_verify body) body
    ]

-- `state["metrics"][name] += 1`, and the new value; a counter that is missing is a KeyError.
unfoldable pub count_up : Text → Action State ℕ
count_up name = do
  counter ← gets (λ state. metric name state.metrics)
  n ← or_throw counter key_error
  modify (λ state. record state { metrics = increment name state.metrics })
  pure (suc n)

unfoldable pub mark_request : Action State ℕ
unfolding count_up
mark_request = count_up (txt "requests_total")

unfoldable pub mark_error : Action State ℕ
unfolding count_up
mark_error = count_up (txt "errors_total")

unfoldable pub mark_high_risk_denied : Action State ℕ
unfolding count_up
mark_high_risk_denied = count_up (txt "high_risk_denied_total")

-- `ensure_confirmation`, given the header `x-confirm`.
unfoldable pub ensure_confirmation : Fields → Text → Text → Action State (Unit {0})
unfolding is_confirmed mark_high_risk_denied
ensure_confirmation body x_confirm action =
    if is_confirmed body x_confirm
    then pure tt
    else mark_high_risk_denied >> throw (confirmation_required action)
