-- ===== src/Monitoring/Slug.antt =====
-- `_slugify` of homeinfra/monitoring.py, which makes the id of a group or a device from its name.
use homeinfra_control_center.Prelude.{
  ℕ, Bool, true, false, ◌&&◌, ◌||◌, [], ◌∷◌, Text, txt, strip, lower, drop_while, or_else, reverse,
  leb, nat_eq, if◌then◌else◌,
}

-- The class `[a-z0-9]`.
unfoldable pub is_slug_char : ℕ → Bool
is_slug_char c = leb b'a' c && leb c b'z' || leb b'0' c && leb c b'9'

-- `re.sub(r"[^a-z0-9]+", "-", s)`; `gap` says that the last character was of a run.
unfoldable pub squeeze : Bool → Text → Text
unfolding is_slug_char
squeeze gap [] = []
squeeze gap (c ∷ s) =
    let kept = squeeze false s in
    let dropped = squeeze true s in
    if is_slug_char c then c ∷ kept else if gap then dropped else b'-' ∷ dropped

abbrev pub is_dash : ℕ → Bool
is_dash c = nat_eq c b'-'

-- `s.strip("-")`
unfoldable pub strip_dashes : Text → Text
strip_dashes s = reverse (drop_while is_dash (reverse (drop_while is_dash s)))

unfoldable pub slugify : Text → Text
unfolding strip lower squeeze strip_dashes
slugify value = or_else (strip_dashes (squeeze false (lower (strip value)))) (txt "item")
