-- ===== src/App/Sanitize/Clean.antt =====
-- What `safe_audit_payload` leaves out, and what it keeps.
use homeinfra_control_center.Prelude.{false, ◌≡◌, refl, inl, inr, Bool-cases, ap}
use homeinfra_control_center.Model.Json.{
  Value, null, bool, int, dec, str, arr, obj, Items, nil, cons, Fields, end, field,
}
use homeinfra_control_center.App.Sanitize.{
  is_sensitive, sanitize, sanitize_items, safe_audit_payload,
}

-- No key at any depth is a sensitive one.
unfoldable mutual
  pub IsClean : Value → Type 0
  IsClean null = Unit
  IsClean (bool b) = Unit
  IsClean (int z) = Unit
  IsClean (dec m k) = Unit
  IsClean (str s) = Unit
  IsClean (arr vs) = AllClean vs
  IsClean (obj fs) = FieldsClean fs

  pub AllClean : Items → Type 0
  AllClean nil = Unit
  AllClean (cons v vs) = IsClean v × AllClean vs

  pub FieldsClean : Fields → Type 0
  FieldsClean end = Unit
  FieldsClean (field key value fs) = (is_sensitive key ≡ false) × IsClean value × FieldsClean fs

mutual
  unfolding sanitize IsClean

  sanitize-IsClean : (v : Value) → IsClean (sanitize v)
  sanitize-IsClean null = tt
  sanitize-IsClean (bool b) = tt
  sanitize-IsClean (int z) = tt
  sanitize-IsClean (dec m k) = tt
  sanitize-IsClean (str s) = tt
  sanitize-IsClean (arr vs) = sanitize_items-AllClean vs
  sanitize-IsClean (obj fs) = payload-FieldsClean fs

  sanitize_items-AllClean : (vs : Items) → AllClean (sanitize_items vs)
  sanitize_items-AllClean nil = tt
  sanitize_items-AllClean (cons v vs) = (sanitize-IsClean v, sanitize_items-AllClean vs)

  payload-FieldsClean : (fs : Fields) → FieldsClean (safe_audit_payload fs)
  payload-FieldsClean end = tt
  payload-FieldsClean (field key value fs) = elim (Bool-cases (is_sensitive key)) [
    | inl secret ↦ rw secret (payload-FieldsClean fs)
    | inr open_key ↦ rw open_key (open_key, sanitize-IsClean value, payload-FieldsClean fs)
  ]

mutual
  unfolding sanitize IsClean

  sanitize-clean : (v : Value) → IsClean v → sanitize v ≡ v
  sanitize-clean null h = refl
  sanitize-clean (bool b) h = refl
  sanitize-clean (int z) h = refl
  sanitize-clean (dec m k) h = refl
  sanitize-clean (str s) h = refl
  sanitize-clean (arr vs) h = ap arr (sanitize_items-clean vs h)
  sanitize-clean (obj fs) h = ap obj (payload-clean fs h)

  sanitize_items-clean : (vs : Items) → AllClean vs → sanitize_items vs ≡ vs
  sanitize_items-clean nil h = refl
  sanitize_items-clean (cons v vs) h = rw (sanitize-clean v h.0, sanitize_items-clean vs h.1) refl

  payload-clean : (fs : Fields) → FieldsClean fs → safe_audit_payload fs ≡ fs
  payload-clean end h = refl
  payload-clean (field key value fs) h =
      rw (h.0, sanitize-clean value h.1, payload-clean fs h.2) refl

-- What is left of a body for the audit log has no sensitive key at any depth, and a body
-- without one is kept as it is.
pub safe_audit_payload-FieldsClean :
    (body : Fields)
    → FieldsClean (safe_audit_payload body) × (FieldsClean body → safe_audit_payload body ≡ body)
safe_audit_payload-FieldsClean body = (payload-FieldsClean body, payload-clean body)
