-- ===== src/App/Sanitize.antt =====
-- `safe_audit_payload` of homeinfra/app.py, which leaves the secrets of a body out of the audit log.
pub mod Clean
use homeinfra_control_center.Prelude.{
  ℕ, Bool, true, false, ◌≡◌, refl, arith, inl, inr, Bool-cases, List, [], ◌∷◌, Text, txt, ◌==◌,
  lower, mem, if◌then◌else◌,
}
use homeinfra_control_center.Model.Json.{
  Value, null, bool, int, dec, str, arr, obj, Items, nil, cons, Fields, end, field,
}

abbrev pub sensitive_audit_keys : List Text
sensitive_audit_keys =
    txt "authorization"
    ∷ txt "encrypted_private_key"
    ∷ txt "inline_private_key"
    ∷ txt "key_path"
    ∷ txt "new_password"
    ∷ txt "password"
    ∷ txt "password_hash"
    ∷ txt "password_salt"
    ∷ txt "private_key_path"
    ∷ txt "token"
    ∷ txt "token_hash"
    ∷ []

-- `key.lower() in SENSITIVE_AUDIT_KEYS`
unfoldable pub is_sensitive : Text → Bool
unfolding lower
is_sensitive key = mem (lower key) sensitive_audit_keys

unfoldable mutual
  pub sanitize : Value → Value
  sanitize null = null
  sanitize (bool b) = bool b
  sanitize (int z) = int z
  sanitize (dec m k) = dec m k
  sanitize (str s) = str s
  sanitize (arr vs) = arr (sanitize_items vs)
  sanitize (obj fs) = obj (safe_audit_payload fs)

  pub sanitize_items : Items → Items
  sanitize_items nil = nil
  sanitize_items (cons v vs) = cons (sanitize v) (sanitize_items vs)

  pub safe_audit_payload : Fields → Fields
  safe_audit_payload end = end
  safe_audit_payload (field key value fs) =
      let rest = safe_audit_payload fs in
      if is_sensitive key then rest else field key (sanitize value) rest
