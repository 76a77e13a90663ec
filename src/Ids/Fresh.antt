-- ===== src/Ids/Fresh.antt =====
-- The id that `_next_numbered_id` hands out is not among the ids that it was given.
use homeinfra_control_center.Prelude.{
  ℕ, ◌+◌, ◌≤◌, ◌<◌, ◌≡◌, refl, ◌≢◌, true, List, [], ◌∷◌, ◌++◌, Text, txt, All, arith, starts_with,
  count, ◌==◌, ==_iff,
}
use homeinfra_control_center.Ids.{format_05d, raise_highest, highest_of, next_numbered_id}
use homeinfra_control_center.Ids.Decimal.{
  format_05d-AllDigits, parse_int-format_05d, after_last_dash-append,
}

raise_highest-le :
    (prefix : Text) (highest : ℕ) (item_id : Text) → highest ≤ raise_highest prefix highest item_id
unfolding raise_highest
raise_highest-le prefix highest item_id = ground arith

le-highest_of :
    (prefix : Text) (highest : ℕ) (ids : List Text) → highest ≤ highest_of prefix highest ids
unfolding highest_of
le-highest_of prefix highest [] = omega arith
le-highest_of prefix highest (item_id ∷ ids) = omega (
  arith,
  raise_highest-le prefix highest item_id,
  le-highest_of prefix (raise_highest prefix highest item_id) ids,
)

starts_with-append : (p s : Text) → starts_with (p ++ txt "-") (p ++ (b'-' ∷ s)) ≡ true
unfolding starts_with
starts_with-append [] s = refl
starts_with-append (c ∷ p) s = ground (arith, starts_with-append p s)

-- The number of an id that has the written form counts.
raise_highest-format_05d :
    (prefix : Text) (highest n : ℕ)
    → n ≤ raise_highest prefix highest (prefix ++ (b'-' ∷ format_05d n))
unfolding raise_highest
raise_highest-format_05d prefix highest n = ground (
  arith,
  starts_with-append prefix (format_05d n),
  after_last_dash-append prefix (format_05d n) (format_05d-AllDigits n),
  parse_int-format_05d n,
)

fresh_from :
    (prefix : Text) (highest n : ℕ) (ids : List Text)
    → highest_of prefix highest ids < n
    → All (λ item_id. item_id ≢ prefix ++ (b'-' ∷ format_05d n)) ids
unfolding highest_of
fresh_from prefix highest n [] h = tt
fresh_from prefix highest n (item_id ∷ ids) h = (
  λ same. ground (
    arith,
    raise_highest-format_05d prefix highest n,
    le-highest_of prefix (raise_highest prefix highest item_id) ids,
  ),
  fresh_from prefix (raise_highest prefix highest item_id) n ids h,
)

-- A new numbered id differs from every given one, whatever their form.
pub next_numbered_id_fresh :
    (prefix : Text) (ids : List Text) → All (λ item_id. item_id ≢ next_numbered_id prefix ids) ids
unfolding next_numbered_id
next_numbered_id_fresh prefix ids =
    fresh_from prefix 0 (highest_of prefix 0 ids + 1) ids (omega arith)

pub count_of_absent :
    (k : Text) (ids : List Text) → All (λ i. i ≢ k) ids → count (λ i. i == k) ids ≡ 0
count_of_absent k [] h = refl
count_of_absent k (i ∷ ids) h = ground (arith, h.0, ==_iff i k, count_of_absent k ids h.1)
