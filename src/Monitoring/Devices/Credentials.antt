-- ===== src/Monitoring/Devices/Credentials.antt =====
-- What the methods on devices guarantee of the connection and its secrets.
use homeinfra_control_center.Prelude.{
  ℕ, ◌≡◌, refl, sym, ap, ◌∙◌, subst, change_first, Bool, true, false, ◌&&◌, not, none, some, Text,
  txt, ◌==◌, ==_iff, find, is_empty, Bool-cases, Option-cases, inl, inr, arith, if◌then◌else◌,
}
use homeinfra_control_center.Prelude.Counting.{OneChanged, change_first-OneChanged}
use homeinfra_control_center.Errors.{ok, Result-cases}
use homeinfra_control_center.Model.Json.{Fields}
use homeinfra_control_center.Model.State.{Device, State, isoformat}
use homeinfra_control_center.Monitoring.Lookup.{
  has_device_id, find_device, ensure_group_exists, find_group, has_group_id, count_write,
  count_metric, change_device,
}
use homeinfra_control_center.Monitoring.Public.{PublicDevice, public_device}
use homeinfra_control_center.Monitoring.Devices.Form.{
  DeviceFields, Secrets, is_set, is_given, enforce_auth_shape, normalize_stored_credentials,
  validate_device_payload,
}
use homeinfra_control_center.Monitoring.Devices.{
  update_device, update_device_mutate, has_protected_field, has_disallowed_field,
  touches_connection, merged_device, unverified, with_secrets, device_secrets, given_group,
}

unknown_not_online : (txt "unknown" == txt "online") ≡ false
unfolding ◌==◌
unknown_not_online = refl

disabled_not_online : (txt "disabled" == txt "online") ≡ false
unfolding ◌==◌
disabled_not_online = refl

-- The secrets that an authentication type asks for, and no other.
abbrev pub fits : Text → Secrets → Bool
fits auth_type secrets =
    if auth_type == txt "password"
    then is_set secrets.password && not (is_given secrets.private_key_path)
    else if auth_type == txt "private_key"
    then is_set secrets.private_key_path && not (is_given secrets.password)
    else not (is_given secrets.password) && not (is_given secrets.private_key_path)

normalized-fits :
    (auth_type : Text) (before after : Secrets)
    → enforce_auth_shape auth_type before ≡ ok after
    → fits auth_type (normalize_stored_credentials auth_type after) ≡ true
unfolding enforce_auth_shape normalize_stored_credentials
normalized-fits auth_type before after h = ground arith

-- What an operator may not change.
pub record SameConnection (d old : Device) : Type 0 where
  pub id : d.id ≡ old.id
  pub host : d.host ≡ old.host
  pub port : d.port ≡ old.port
  pub username : d.username ≡ old.username
  pub device_type : d.device_type ≡ old.device_type
  pub auth_type : d.auth_type ≡ old.auth_type
  pub status : d.status ≡ old.status
  pub verified : d.verified ≡ old.verified

given_group-state :
    (f : DeviceFields) (group_id : Text) (s : State) → (given_group f group_id s).1 ≡ s
unfolding ensure_group_exists find_group
given_group-state f group_id s = elim (Option-cases f.group_id) [
  | inl absent ↦ ground arith
  | inr (g, sent) ↦ elim (Bool-cases (is_empty group_id)) [
    | inl blank ↦ ground arith
    | inr filled ↦ elim (Option-cases (find (has_group_id group_id) s.device_groups)) [
      | inl absent ↦ ground arith
      | inr (group, found) ↦ ground arith
    ]
  ]
]

module _ (now : ℕ) (device_id : Text) (f : DeviceFields) (s : State) where
  -- A device that an update returns.
  abbrev updated_device : Device → Secrets → Device
  updated_device old secrets =
      with_secrets (isoformat now)
        (normalize_stored_credentials (merged_device f old).auth_type secrets)
        (unverified (touches_connection f) (merged_device f old))

  abbrev old_secrets : Device → Secrets
  old_secrets old = device_secrets (unverified (touches_connection f) (merged_device f old))

  -- What an update that returns did: it stored a device in place of the old one, and shows it.
  update_parts :
      {p : PublicDevice}
      → (update_device_mutate now device_id f s).0 ≡ ok p
      → (old : Device) × (secrets : Secrets) × (find (has_device_id device_id) s.devices ≡ some old)
        × (enforce_auth_shape (merged_device f old).auth_type (old_secrets old) ≡ ok secrets)
        × ((update_device_mutate now device_id f s).1.devices
            ≡ change_first (has_device_id device_id) (λ d. updated_device old secrets) s.devices)
        × (p
            ≡ public_device (update_device_mutate now device_id f s).1 (updated_device old secrets))
  unfolding update_device_mutate find_device count_write count_metric change_device
  update_parts {p} h = elim (Option-cases (find (has_device_id device_id) s.devices)) [
    | inl absent ↦ absurd (ground arith)
    | inr (old, found) ↦ elim (Result-cases (given_group f (merged_device f old).group_id s).0) [
      | inl (e, refused) ↦ absurd (ground arith)
      | inr (u, there) ↦
          elim (Result-cases
            (enforce_auth_shape (merged_device f old).auth_type (old_secrets old))) [
              | inl (e, misshapen) ↦
                  absurd (ground (arith, given_group-state f (merged_device f old).group_id s))
              | inr (secrets, fitting) ↦ (
                old,
                secrets,
                found,
                fitting,
                ground (arith, given_group-state f (merged_device f old).group_id s),
                ground (arith, given_group-state f (merged_device f old).group_id s),
              )
            ]
    ]
  ]

  -- The device that an update returned with is stored in place of the one it found, and is what
  -- it shows.
  pub record Stored (p : PublicDevice) (old d : Device) : Type 0 where
    pub found : find (has_device_id device_id) s.devices ≡ some old
    pub replaced :
        OneChanged
          (has_device_id device_id)
          old
          d
          s.devices
          (update_device_mutate now device_id f s).1.devices
    pub shown : p ≡ public_device (update_device_mutate now device_id f s).1 d

  update-Stored :
      {p : PublicDevice}
      → (update_device_mutate now device_id f s).0 ≡ ok p
      → (old : Device) × (secrets : Secrets) × (enforce_auth_shape
            (merged_device f old).auth_type
            (old_secrets old)
          ≡ ok secrets)
        × Stored p old (updated_device old secrets)
  update-Stored {p} h =
      let (old, secrets, found, fitting, stored, shown) = update_parts h in
      (
        old,
        secrets,
        fitting,
        record {
          found = found;
          replaced =
              subst
                (λ ds.
                  OneChanged (has_device_id device_id) old (updated_device old secrets) s.devices
                    ds)
                (sym stored)
                (change_first-OneChanged (has_device_id device_id) (λ d. updated_device old secrets)
                  s.devices found);
          shown = shown;
        },
      )

module _ (now : ℕ) (device_id : Text) (f : DeviceFields) (s : State) (old : Device)
    (secrets : Secrets) where
  abbrev result_device : Device
  result_device = updated_device now device_id f s old secrets

  updated-fits :
      enforce_auth_shape (merged_device f old).auth_type (old_secrets now device_id f s old)
        ≡ ok secrets
      → fits result_device.auth_type (device_secrets result_device) ≡ true
  unfolding with_secrets unverified
  updated-fits fitting = ground (
    arith,
    normalized-fits (merged_device f old).auth_type (old_secrets now device_id f s old) secrets
        fitting,
  )

  updated-unverified :
      touches_connection f ≡ true
      → (result_device.verified ≡ false)
        × (result_device.last_seen ≡ none)
        × (result_device.status == txt "online" ≡ false)
  unfolding with_secrets unverified
  updated-unverified touched = (
    ground (arith, touched),
    ground (arith, touched),
    ground (
      arith,
      touched,
      unknown_not_online,
      disabled_not_online,
      ==_iff (merged_device f old).status (txt "disabled"),
    ),
  )

  operator_kept : has_disallowed_field f ≡ false → SameConnection result_device old
  unfolding has_disallowed_field touches_connection with_secrets unverified merged_device
  operator_kept allowed = record {
    id = ground arith;
    host = ground arith;
    port = ground arith;
    username = ground arith;
    device_type = ground arith;
    auth_type = ground arith;
    status = ground arith;
    verified = ground arith;
  }

-- An update that returns has stored, in place of the device it found and with the rest of the
-- table as it was, a device that has exactly the secret that its authentication type asks for:
-- a password, a key path, or neither. What it shows is that device without its secrets.
pub update_device_mutate-fits :
    (now : ℕ) (device_id : Text) (f : DeviceFields) (s : State) {p : PublicDevice}
    → (update_device_mutate now device_id f s).0 ≡ ok p
    → (old d : Device) × Stored now device_id f s p old d
      × (fits d.auth_type (device_secrets d) ≡ true)
update_device_mutate-fits now device_id f s {p} h =
    let (old, secrets, fitting, stored) = update-Stored now device_id f s h in
    (
      old,
      updated_device now device_id f s old secrets,
      stored,
      updated-fits now device_id f s old secrets fitting,
    )

-- An update of the host, the port, the user or the credentials that returns has stored, in
-- place of the device it found, a device that is unverified, has no last contact, and has
-- another status than `online`.
pub update_device_mutate-unverified :
    (now : ℕ) (device_id : Text) (f : DeviceFields) (s : State) {p : PublicDevice}
    → (update_device_mutate now device_id f s).0 ≡ ok p
    → touches_connection f ≡ true
    → (old d : Device) × Stored now device_id f s p old d
      × (d.verified ≡ false)
      × (d.last_seen ≡ none)
      × (d.status == txt "online" ≡ false)
update_device_mutate-unverified now device_id f s {p} h touched =
    let (old, secrets, fitting, stored) = update-Stored now device_id f s h in
    let kept = updated-unverified now device_id f s old secrets touched in
    (old, updated_device now device_id f s old secrets, stored, kept.0, kept.1, kept.2)

module _ (now : ℕ) (device_id : Text) (payload : Fields) (s : State) where
  -- What an update without leave for sensitive fields leaves in place of the device it found.
  pub record KeptByOperator (p : PublicDevice) (old d : Device) : Type 0 where
    pub found : find (has_device_id device_id) s.devices ≡ some old
    pub replaced :
        OneChanged
          (has_device_id device_id)
          old
          d
          s.devices
          (update_device now device_id payload false s).1.devices
    pub shown : p ≡ public_device (update_device now device_id payload false s).1 d
    pub same : SameConnection d old

  -- An update without leave for sensitive fields that returns has stored a device in place of
  -- the one it found, left the rest of the device table as it was, and shows what it stored;
  -- the stored device has the id, the address, the user, the kind, the authentication type, the
  -- status and the verification of the old one, whatever the body holds.
  pub operator_update_keeps :
      {p : PublicDevice}
      → (update_device now device_id payload false s).0 ≡ ok p
      → (old d : Device) × KeptByOperator p old d
  unfolding update_device
  operator_update_keeps {p} h = elim (Bool-cases (has_protected_field payload)) [
    | inl barred ↦ absurd (ground arith)
    | inr open_body ↦ elim (Result-cases (validate_device_payload payload true)) [
      | inl (e, invalid) ↦ absurd (ground arith)
      | inr (f, valid) ↦ elim (Bool-cases (has_disallowed_field f)) [
        | inl barred ↦ absurd (ground arith)
        | inr allowed ↦
            let same_run : update_device now device_id payload false s
                ≡ update_device_mutate now device_id f s =
              ground arith in
            let (old, secrets, fitting, stored) =
              update-Stored now device_id f s (ap (λ o. o.0) (sym same_run) ∙ h) in
            let d = updated_device now device_id f s old secrets in
            (
              old,
              d,
              record {
                found = stored.found;
                replaced =
                    subst (λ o. OneChanged (has_device_id device_id) old d s.devices o.1.devices)
                      (sym same_run) stored.replaced;
                shown = subst (λ o. p ≡ public_device o.1 d) (sym same_run) stored.shown;
                same = operator_kept now device_id f s old secrets allowed;
              },
            )
      ]
    ]
  ]
