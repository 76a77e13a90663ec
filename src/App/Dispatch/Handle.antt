-- ===== src/App/Dispatch/Handle.antt =====
-- `handle_api_request` of homeinfra/app.py: the principal, the dispatch, and the record of an error.
use homeinfra_control_center.Prelude.{
  Option, none, some, [], ◌∷◌, ◌++◌, Text, txt, lower, starts_with, if◌then◌else◌,
}
use homeinfra_control_center.Errors.{
  Error, Result, ok, err, auth_required, forbidden, conflict, validation_error, not_found,
  rate_limited, confirmation_required, payload_too_large,
}
use homeinfra_control_center.Effects.{Action, pure, throw, ◌>>◌}
use homeinfra_control_center.Model.Json.{Value, str}
use homeinfra_control_center.Auth.Operations.{Principal}
use homeinfra_control_center.Parsers.Tables.{dict}
use homeinfra_control_center.App.Routes.{is_public_api_route}
use homeinfra_control_center.App.Dispatch.{ApiRequest, Services, dispatch_api}

-- `ApiError.code`; the other errors are no `ApiError`.
unfoldable pub error_code : Error → Option Text
error_code (auth_required m) = some (txt "auth_required")
error_code (forbidden m) = some (txt "forbidden")
error_code (conflict m) = some (txt "conflict")
error_code (validation_error m) = some (txt "validation_error")
error_code (not_found r i) = some (txt "not_found")
error_code (rate_limited s) = some (txt "rate_limited")
error_code (confirmation_required a) = some (txt "confirmation_required")
error_code (payload_too_large n) = some (txt "payload_too_large")
error_code _ = none

module _ {S : Type 0} (svc : Services S) where
  -- `record_api_error`; `message_of` stands for the message of the error.
  unfoldable pub record_api_error :
      (Error → Text) → ApiRequest → Option Principal → Text → Error → Action S (Unit {0})
  unfolding starts_with lower
  record_api_error message_of req principal code e =
      if starts_with (txt "/api/v1/") req.path
      then svc.audit (record {
        actor = elim principal [ none ↦ txt "anonymous" | some p ↦ p.subject ];
        role = elim principal [ none ↦ txt "anonymous" | some p ↦ p.role ];
        action = txt "http." ++ lower req.method;
        resource = req.path;
        outcome = code;
        request_id = req.request_id;
        details = dict (("message", str (message_of e)) ∷ []);
      })
      else pure tt

  -- The handler of `ApiError`: the error is recorded and raised again.
  unfoldable pub on_error : (Error → Text) → ApiRequest → Option Principal → Error → Action S Value
  unfolding error_code record_api_error
  on_error message_of req principal e = elim (error_code e) [
    | none ↦ throw e
    | some code ↦ record_api_error message_of req principal code e >> throw e
  ]

  unfoldable pub resolve_request_principal : ApiRequest → Action S (Option Principal)
  unfolding is_public_api_route
  resolve_request_principal req s =
      if is_public_api_route req.method req.path
      then (ok none, s)
      else let (r, s') = svc.resolve_principal req.headers s in
        elim r [ err e ↦ (err e, s') | ok p ↦ (ok (some p), s') ]

  abbrev pub after_dispatch :
      (Error → Text) → ApiRequest → Option Principal → Result Value × S → Result Value × S
  after_dispatch message_of req principal (ok v, s) = (ok v, s)
  after_dispatch message_of req principal (err e, s) = on_error message_of req principal e s

  abbrev pub after_resolve :
      (Error → Text) → ApiRequest → Result (Option Principal) × S → Result Value × S
  after_resolve message_of req (err e, s) = on_error message_of req none e s
  after_resolve message_of req (ok principal, s) =
      after_dispatch message_of req principal (dispatch_api svc req principal s)

  -- `handle_api_request`
  unfoldable pub handle_api_request : (Error → Text) → ApiRequest → Action S Value
  unfolding resolve_request_principal dispatch_api on_error
  handle_api_request message_of req s =
      after_resolve message_of req (resolve_request_principal req s)
