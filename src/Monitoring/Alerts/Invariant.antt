-- ===== src/Monitoring/Alerts/Invariant.antt =====
-- What holds of the list of alerts: ids are unique, a device has at most one active alert for a
-- code, and an alert is resolved exactly when it has the time of it.
use homeinfra_control_center.Prelude.{
  ℕ, ◌≤◌, ◌≡◌, ◌≢◌, subst, refl, Bool, true, false, ◌&&◌, ◌||◌, Option, none, some, List, [], ◌∷◌,
  map, Text, txt, ◌==◌, ==_iff, any, keep, count, change_first, All, Bool-cases, inl, inr, arith,
  not,
}
use homeinfra_control_center.Prelude.Counting.{
  count-map, count_weaken, count-change_first_same, any-eq_false, All-change_first,
}
use homeinfra_control_center.Ids.{next_numbered_id}
use homeinfra_control_center.Ids.Fresh.{next_numbered_id_fresh, count_of_absent}
use homeinfra_control_center.Model.State.{Alert, Device}
use homeinfra_control_center.Monitoring.Values.{Check}
use homeinfra_control_center.Monitoring.Alerts.{
  is_active, of_device, has_alert_id, is_open, resolved, auto_resolved, resolve_existing_alerts,
  refreshed, new_alert, upsert_alert,
}

abbrev pub is_some {ℓ} : {A : Type ℓ} → Option A → Bool
is_some none = false
is_some (some a) = true

-- Active and not resolved, or resolved at a time by someone.
abbrev pub is_settled : Alert → Bool
is_settled a =
    is_active a && not (is_some a.resolved_at) && not (is_some a.resolved_by)
    || a.status == txt "resolved" && is_some a.resolved_at && is_some a.resolved_by

pub record AlertsValid (alerts : List Alert) : Type 0 where
  pub ids : (k : Text) → count (has_alert_id k) alerts ≤ 1
  pub single : (device_id code : Text) → count (is_open device_id code) alerts ≤ 1
  pub settled : All (λ a. is_settled a ≡ true) alerts

abbrev pub resolved_text : Text
resolved_text = txt "resolved"

pub resolved_not_active : (resolved_text == txt "active") ≡ false
unfolding ◌==◌
resolved_not_active = refl

pub resolved_is_resolved : (resolved_text == resolved_text) ≡ true
unfolding ◌==◌
resolved_is_resolved = refl

auto_resolved-keeps :
    (now : ℕ) (d : Text) (a : Alert)
    → ((auto_resolved now d a).id ≡ a.id)
      × ((k c : Text) → is_open k c (auto_resolved now d a) ≡ true → is_open k c a ≡ true)
      × (is_settled a ≡ true → is_settled (auto_resolved now d a) ≡ true)
unfolding auto_resolved resolved
auto_resolved-keeps now d a = (
  ground arith,
  λ k c h. ground (arith, resolved_not_active),
  λ h. ground (arith, resolved_not_active, resolved_is_resolved),
)

module _ (now : ℕ) (d : Text) where
  settled-map :
      (xs : List Alert)
      → All (λ a. is_settled a ≡ true) xs
      → All (λ a. is_settled a ≡ true) (map (auto_resolved now d) xs)
  settled-map [] h = tt
  settled-map (a ∷ xs) h = ((auto_resolved-keeps now d a).2 h.0, settled-map xs h.1)

  pub resolve_existing_alerts-AlertsValid :
      (xs : List Alert) → AlertsValid xs → AlertsValid (resolve_existing_alerts now d xs)
  unfolding resolve_existing_alerts
  resolve_existing_alerts-AlertsValid xs h = record {
    ids = λ k. omega (
      arith,
      h.ids k,
      count-map (has_alert_id k) (auto_resolved now d) xs,
      count_weaken (λ a. has_alert_id k (auto_resolved now d a)) (has_alert_id k) xs
          (λ a e. ground (arith, (auto_resolved-keeps now d a).0, e)),
    );
    single = λ k c. omega (
      arith,
      h.single k c,
      count-map (is_open k c) (auto_resolved now d) xs,
      count_weaken (λ a. is_open k c (auto_resolved now d a)) (is_open k c) xs
          (λ a e. (auto_resolved-keeps now d a).1 k c e),
    );
    settled = settled-map xs h.settled;
  }

  -- After the loop the device has no active alert.
  pub resolve_existing_alerts-none :
      (xs : List Alert)
      → count (λ a. of_device d a && is_active a) (resolve_existing_alerts now d xs) ≡ 0
  unfolding resolve_existing_alerts auto_resolved resolved
  resolve_existing_alerts-none [] = refl
  resolve_existing_alerts-none (a ∷ xs) =
      ground (arith, resolved_not_active, resolve_existing_alerts-none xs)

  -- The alerts of the other devices are as they were.
  pub resolve_existing_alerts-others :
      (k : Text)
      → k == d ≡ false
      → (xs : List Alert)
      → keep (of_device k) (resolve_existing_alerts now d xs) ≡ keep (of_device k) xs
  unfolding resolve_existing_alerts auto_resolved resolved
  resolve_existing_alerts-others k other [] = refl
  resolve_existing_alerts-others k other (a ∷ xs) = ground (
    arith,
    resolve_existing_alerts-others k other xs,
    ==_iff a.device_id k,
    ==_iff a.device_id d,
    ==_iff k d,
  )

module _ (now : ℕ) (record_id : Text) (device : Device) (check : Check) where
  new_alert-fresh :
      (k : Text) (xs : List Alert)
      → has_alert_id k (new_alert now record_id check device xs) ≡ true
      → count (has_alert_id k) xs ≡ 0
  unfolding new_alert
  new_alert-fresh k xs same = omega (
    arith,
    count-map (λ i. i == k) (λ a. a.id) xs,
    count_of_absent k (map (λ a. a.id) xs) (
        subst (λ i. All (λ j. j ≢ i) (map (λ a. a.id) xs))
          ((==_iff (next_numbered_id (txt "alert") (map (λ a. a.id) xs)) k).0 same)
          (next_numbered_id_fresh (txt "alert") (map (λ a. a.id) xs))),
  )

  new_alert-settled :
      (xs : List Alert) → is_settled (new_alert now record_id check device xs) ≡ true
  unfolding new_alert ◌==◌
  new_alert-settled xs = refl

  refreshed-AlertsValid :
      (xs : List Alert)
      → AlertsValid xs
      → AlertsValid (change_first (is_open device.id check.type) (refreshed now record_id check) xs)
  unfolding refreshed
  refreshed-AlertsValid xs h =
      let f = refreshed now record_id check in
      let q = is_open device.id check.type in
      record {
        ids = λ k.
            omega (arith, h.ids k, count-change_first_same (has_alert_id k) q f xs (λ a. refl));
        single = λ k c.
            omega (arith, h.single k c, count-change_first_same (is_open k c) q f xs (λ a. refl));
        settled = All-change_first (λ a. is_settled a ≡ true) q f xs (λ a good _. good) h.settled;
      }

  -- What is open there is open for the device and the code of the check.
  new_alert-is_open :
      (k c : Text) (xs : List Alert)
      → is_open k c (new_alert now record_id check device xs) ≡ true
      → (device.id ≡ k) × (check.type ≡ c)
  unfolding new_alert
  new_alert-is_open k c xs h =
      (ground (arith, ==_iff device.id k), ground (arith, ==_iff check.type c))

  new_alert-single :
      (k c : Text) (xs : List Alert)
      → any (is_open device.id check.type) xs ≡ false
      → count (is_open k c) xs ≤ 1
      → count (is_open k c) (new_alert now record_id check device xs ∷ xs) ≤ 1
  new_alert-single k c xs closed single =
      elim (Bool-cases (is_open k c (new_alert now record_id check device xs))) [
        | inr other ↦ ground (arith, single)
        | inl hit ↦
            let (same, code) = new_alert-is_open k c xs hit in
            let none_open : count (is_open k c) xs ≡ 0 =
              subst (λ i. count (is_open i c) xs ≡ 0) same
                (subst (λ e. count (is_open device.id e) xs ≡ 0) code
                  (any-eq_false (is_open device.id check.type) xs closed)) in
            ground (arith, none_open)
      ]

  pub upsert_alert-AlertsValid :
      (xs : List Alert) → AlertsValid xs → AlertsValid (upsert_alert now record_id device check xs)
  unfolding upsert_alert
  upsert_alert-AlertsValid xs h = elim (Bool-cases (any (is_open device.id check.type) xs)) [
    | inl opened ↦ rw opened (refreshed-AlertsValid xs h)
    | inr closed ↦ rw closed (record {
      ids = λ k. elim (Bool-cases (has_alert_id k (new_alert now record_id check device xs))) [
        | inl same ↦ ground (arith, new_alert-fresh k xs same)
        | inr other ↦ ground (arith, h.ids k)
      ];
      single = λ k c. new_alert-single k c xs closed (h.single k c);
      settled = (new_alert-settled xs, h.settled);
    })
  ]
