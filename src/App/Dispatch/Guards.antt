-- ===== src/App/Dispatch/Guards.antt =====
-- What a request can do without a principal, and with one that may only look.
use homeinfra_control_center.Prelude.{
  true, false, ◌≡◌, ◌≢◌, refl, sym, ap, ◌∙◌, subst, Bool-cases, arith, Option, none, some, inl, inr,
  Text, txt,
}
use homeinfra_control_center.Errors.{Result, ok, err, Result-cases, auth_required}
use homeinfra_control_center.Effects.{Action, pure, ◌>>=◌, ◌>>◌}
use homeinfra_control_center.Auth.Operations.{Principal}
use homeinfra_control_center.Auth.Access.{require_role, require_permission}
use homeinfra_control_center.App.Routes.{
  Endpoint, live, Route, serve, unknown, unknown_user_path, logout, is_public_api_route,
  open_endpoint, guarded_route, authorise,
}
use homeinfra_control_center.App.Routes.Grants.{
  is_read, is_change, is_guarded, Guarded, guarded_route-Guarded, ReadsOnly, ReadsOnly-Refused,
  Refused, has_endpoint, is_public-open_endpoint,
}
use homeinfra_control_center.App.Dispatch.{
  ApiRequest, Call, Answer, Services, audited, event_of, write_audit, perform, serve_guarded,
  serve_route, dispatch_guarded, dispatch_api, argument_of, body_of,
}

audited-none : (e : Endpoint) (c : Call) (a : Answer) → is_read e ≡ true → audited e c a ≡ none
unfolding audited is_read
audited-none live c a h = refl
audited-none _ c a h = ground arith

only_logout :
    (e : Endpoint) → is_read e ≡ false → is_change e ≡ false → is_guarded e ≡ true → e ≡ logout
unfolding is_read is_change
only_logout logout r c g = refl
only_logout _ r c g = cc

after_step :
    {S A B : Type 0} (p : Result A × S) (f : A → Action S B) (s : S)
    → p.1 ≡ s
    → ((a : A) → (f a s).1 ≡ s)
    → (((λ (t : S). p) >>= f) s).1 ≡ s
after_step (ok a, s') f s same h = rw same (h a)
after_step (err e, s') f s same h = same

-- A chain of steps that keep the state keeps it.
bind_keeps :
    {S A B : Type 0} (m : Action S A) (f : A → Action S B) (s : S)
    → (m s).1 ≡ s
    → ((a : A) → (f a s).1 ≡ s)
    → ((m >>= f) s).1 ≡ s
bind_keeps m f s same h = after_step (m s) f s same h

has_endpoint-none : (o : Option Endpoint) → has_endpoint o ≡ false → o ≡ none
has_endpoint-none none h = refl
has_endpoint-none (some e) h = cc

no_endpoint :
    (req : ApiRequest)
    → is_public_api_route req.method req.path ≡ false
    → open_endpoint req.method req.path ≡ none
no_endpoint req h =
    has_endpoint-none (open_endpoint req.method req.path)
      (sym (is_public-open_endpoint req.method req.path) ∙ h)

module _ {S : Type 0} (svc : Services S) where
  -- The services that an endpoint that only reads is served by leave the state.
  abbrev pub ReadsKeep : Type 0
  ReadsKeep = (c : Call) (s : S) → is_read c.endpoint ≡ true → (svc.run c s).1 ≡ s

  perform-read :
      (request_id : Text) (c : Call) (s : S)
      → ReadsKeep
      → is_read c.endpoint ≡ true
      → (perform svc request_id c s).1 ≡ s
  unfolding perform
  perform-read request_id c s keeps h =
      bind_keeps (svc.run c)
        (λ answer.
          write_audit svc (event_of svc request_id c answer (audited c.endpoint c answer))
          >> pure answer.value)
        s (keeps c s h) (λ a. rw (audited-none c.endpoint c a h) refl)

  serve_guarded-read :
      (req : ApiRequest) (p : Principal) (e : Endpoint) (s : S)
      → ReadsKeep
      → is_read e ≡ true
      → (serve_guarded svc req p e s).1 ≡ s
  unfolding serve_guarded
  serve_guarded-read req p e s keeps h = elim (Result-cases (authorise p.role e)) [
    | inl (error, refused) ↦ rw refused refl
    | inr (u, passed) ↦ elim (Result-cases (argument_of e req)) [
      | inl (error, wrong) ↦ rw (passed, wrong) refl
      | inr (argument, read) ↦ elim (Result-cases (body_of svc.prepare_device e req.body)) [
        | inl (error, unprepared) ↦ rw (passed, read, unprepared) refl
        | inr (body, prepared) ↦
            rw (passed, read, prepared) (perform-read req.request_id _ s keeps h)
      ]
    ]
  ]

  serve_guarded-Refused :
      (req : ApiRequest) (p : Principal) (e : Endpoint) (s : S)
      → Refused (authorise p.role e)
      → (serve_guarded svc req p e s).1 ≡ s
  unfolding serve_guarded
  serve_guarded-Refused req p e s h = elim (Result-cases (authorise p.role e)) [
    | inl (error, refused) ↦ rw refused refl
    | inr (u, passed) ↦ absurd (subst Refused passed h)
  ]

  serve_route-keeps :
      (req : ApiRequest) (p : Principal) (route : Route) (s : S)
      → ReadsKeep
      → ReadsOnly p.role
      → Guarded route
      → route ≢ serve logout
      → (serve_route svc req p route s).1 ≡ s
  unfolding serve_route
  serve_route-keeps req p (serve e) s keeps looks guarded other = elim (Bool-cases (is_read e)) [
    | inl reads ↦ serve_guarded-read req p e s keeps reads
    | inr writes ↦ elim (Bool-cases (is_change e)) [
      | inl changes ↦ serve_guarded-Refused req p e s (ReadsOnly-Refused looks e changes)
      | inr same ↦ absurd (other (ap serve (only_logout e writes same guarded)))
    ]
  ]
  serve_route-keeps req p unknown s keeps looks guarded other = refl
  serve_route-keeps req p unknown_user_path s keeps looks guarded other =
      elim (Result-cases (require_permission (some p.role) (txt "users") (txt "write") none none)) [
        | inl (error, refused) ↦ rw refused refl
        | inr (u, passed) ↦ rw passed refl
      ]

  -- Dispatching a request of a viewer or an auditor to a route that is neither public nor the
  -- logout leaves the state as it was, provided that each service of an endpoint that only
  -- reads does; nothing is assumed of the services that change something.
  pub viewer_changes_nothing :
      (req : ApiRequest) (p : Principal) (s : S)
      → ReadsKeep
      → ReadsOnly p.role
      → is_public_api_route req.method req.path ≡ false
      → guarded_route req.method req.path ≢ serve logout
      → (dispatch_api svc req (some p) s).1 ≡ s
  unfolding dispatch_api dispatch_guarded
  viewer_changes_nothing req p s keeps looks public other =
      elim (Result-cases (require_role (some p.role) (txt "viewer"))) [
        | inl (error, refused) ↦ rw (no_endpoint req public, refused) refl
        | inr (u, passed) ↦
            rw (no_endpoint req public, passed)
              (serve_route-keeps req p (guarded_route req.method req.path) s keeps looks
                (guarded_route-Guarded req.method req.path) other)
      ]

  -- Without a principal every route that is not public is refused, and the state is kept.
  pub anonymous_refused :
      (req : ApiRequest) (s : S)
      → is_public_api_route req.method req.path ≡ false
      → dispatch_api svc req none s ≡ (err (auth_required "需要认证"), s)
  unfolding dispatch_api dispatch_guarded require_role
  anonymous_refused req s h = rw (no_endpoint req h) refl
