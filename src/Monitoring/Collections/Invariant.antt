-- ===== src/Monitoring/Collections/Invariant.antt =====
-- What a collection keeps: the list of records is bounded and its ids are unique, and the alerts
-- are well-formed.
use homeinfra_control_center.Prelude.{
  ℕ, ◌≤◌, ◌≡◌, ◌≢◌, refl, sym, ◌∙◌, subst, Bool, List, ◌∷◌, map, Text, txt, ◌==◌, [], true, not,
  ==_iff, length, count, All, find, Bool-cases, Option-cases, inl, inr, arith, nat_eq,
}
use homeinfra_control_center.Prelude.Counting.{count-take, length-take, count-map}
use homeinfra_control_center.Errors.{Result-cases}
use homeinfra_control_center.Effects.{Action}
use homeinfra_control_center.Ids.{next_numbered_id}
use homeinfra_control_center.Ids.Fresh.{next_numbered_id_fresh, count_of_absent}
use homeinfra_control_center.Model.State.{Device, Record, State, isoformat}
use homeinfra_control_center.Model.Store.{sqlite_update, sqlite_update_keeps}
use homeinfra_control_center.Model.Store.Tables.{Sql, sqlite_database}
use homeinfra_control_center.Model.Store.Tables.Counts.{Fewer, sqlite_database-Fewer}
use homeinfra_control_center.Monitoring.Lookup.{
  find_device, change_device, add_metric, has_device_id,
}
use homeinfra_control_center.Monitoring.Alerts.{reconcile_alerts, has_alert_id, is_open}
use homeinfra_control_center.Monitoring.Alerts.Invariant.{AlertsValid, is_settled}
use homeinfra_control_center.Monitoring.Alerts.Reconcile.{reconcile_alerts-AlertsValid}
use homeinfra_control_center.Monitoring.Collections.{
  CollectionResult, CollectorError, Source, Runtime, Outcome, collected, failed, raised,
  max_collection_records, success_record, failure_record, push_record, after_success, after_failure,
  finish_collection, apply_collection_success, apply_collection_failure, collect_device,
  runtime_error, outcome_update,
}

abbrev pub has_record_id : Text → Record → Bool
has_record_id record_id item = item.id == record_id

pub record RecordsValid (records : List Record) : Type 0 where
  pub bounded : length records ≤ max_collection_records
  pub ids : (k : Text) → count (has_record_id k) records ≤ 1

unfoldable pub CollectionsValid : State → Type 0
CollectionsValid s = RecordsValid s.collection_records × AlertsValid s.alerts

kept_when : {s t : State} → CollectionsValid t → s ≡ t → CollectionsValid s
kept_when h e = subst CollectionsValid (sym e) h

-- An id that is handed out for the records occurs in none of them.
fresh_record :
    (k : Text) (records : List Record)
    → next_numbered_id (txt "col") (map (λ r. r.id) records) ≡ k
    → count (has_record_id k) records ≡ 0
fresh_record k records same = omega (
  arith,
  count-map (λ i. i == k) (λ r. r.id) records,
  count_of_absent k (map (λ r. r.id) records) (
      subst (λ i. All (λ j. j ≢ i) (map (λ r. r.id) records)) same
        (next_numbered_id_fresh (txt "col") (map (λ r. r.id) records))),
)

push-ids :
    (item : Record) (records : List Record)
    → item.id ≡ next_numbered_id (txt "col") (map (λ r. r.id) records)
    → ((k : Text) → count (has_record_id k) records ≤ 1)
    → (k : Text) → count (has_record_id k) (item ∷ records) ≤ 1
push-ids item records fresh h k = elim (Bool-cases (item.id == k)) [
  | inr other ↦ ground (arith, h k)
  | inl same ↦ ground (arith, fresh_record k records (sym fresh ∙ (==_iff item.id k).0 same))
]

push_record-CollectionsValid :
    (item : Record) (s : State)
    → item.id ≡ next_numbered_id (txt "col") (map (λ r. r.id) s.collection_records)
    → CollectionsValid s
    → CollectionsValid (push_record item s)
unfolding CollectionsValid push_record
push_record-CollectionsValid item s fresh h = (
  record {
    bounded = length-take max_collection_records (item ∷ s.collection_records);
    ids = λ k. omega (
      arith,
      count-take (has_record_id k) max_collection_records (item ∷ s.collection_records),
      push-ids item s.collection_records fresh h.0.ids k,
    );
  },
  h.1,
)

change_device-CollectionsValid :
    (d : Text) (f : Device → Device) (s : State)
    → CollectionsValid s
    → CollectionsValid (change_device d f s)
unfolding CollectionsValid change_device
change_device-CollectionsValid d f s h = h

module _ (clock : ℕ → ℕ) (at : ℕ) (metric purpose : Text) (device : Device) (item : Record) where
  finish_collection-parts :
      (s : State)
      → ((finish_collection clock at metric purpose device item s).1.collection_records
          ≡ s.collection_records)
        × ((finish_collection clock at metric purpose device item s).1.alerts
            ≡ (reconcile_alerts clock at device item s.alerts).1)
  unfolding finish_collection add_metric
  finish_collection-parts s =
      elim (Result-cases (reconcile_alerts clock at device item s.alerts).0) [
        | inl (e, thrown) ↦ (ground arith, ground arith)
        | inr (done, finished) ↦ (ground arith, ground arith)
      ]

  finish_collection-CollectionsValid :
      (s : State)
      → CollectionsValid s
      → CollectionsValid (finish_collection clock at metric purpose device item s).1
  unfolding CollectionsValid
  finish_collection-CollectionsValid s h =
      let (records, alerts) = finish_collection-parts s in
      (
        subst RecordsValid (sym records) h.0,
        subst AlertsValid (sym alerts)
            (reconcile_alerts-AlertsValid clock at device item s.alerts h.1),
      )

module _ (clock : ℕ → ℕ) (now at : ℕ) (d purpose metric : Text) where
  success_record-id :
      (device : Device) (result : CollectionResult) (records : List Record)
      → (success_record (isoformat now) purpose device result records).id
        ≡ next_numbered_id (txt "col") (map (λ r. r.id) records)
  unfolding success_record
  success_record-id device result records = refl

  failure_record-id :
      (source : Source) (device : Device) (error : CollectorError) (records : List Record)
      → (failure_record (isoformat now) purpose source device error records).id
        ≡ next_numbered_id (txt "col") (map (λ r. r.id) records)
  unfolding failure_record
  failure_record-id source device error records = refl

  apply_collection_success-CollectionsValid :
      (result : CollectionResult) (s : State)
      → CollectionsValid s
      → CollectionsValid (apply_collection_success clock now at d purpose metric result s).1
  unfolding apply_collection_success find_device
  apply_collection_success-CollectionsValid result s h =
      elim (Option-cases (find (has_device_id d) s.devices)) [
        | inl absent ↦ kept_when h (ground arith)
        | inr (device, found) ↦
            let item = success_record (isoformat now) purpose device result s.collection_records in
            let f = after_success (isoformat now) result.status in
            kept_when
              (finish_collection-CollectionsValid clock at metric purpose (f device) item
                (change_device d f (push_record item s))
                (change_device-CollectionsValid d f (push_record item s) (
                  push_record-CollectionsValid item s
                    (success_record-id device result s.collection_records) h)))
              (ground arith)
      ]

  apply_collection_failure-CollectionsValid :
      (source : Source) (error : CollectorError) (s : State)
      → CollectionsValid s
      → CollectionsValid (apply_collection_failure clock now at source d purpose metric error s).1
  unfolding apply_collection_failure find_device
  apply_collection_failure-CollectionsValid source error s h =
      elim (Option-cases (find (has_device_id d) s.devices)) [
        | inl absent ↦ kept_when h (ground arith)
        | inr (device, found) ↦
            let item =
              failure_record (isoformat now) purpose source device error s.collection_records in
            let f = after_failure (isoformat now) error.status in
            kept_when
              (finish_collection-CollectionsValid clock at metric purpose (f device) item
                (change_device d f (push_record item s))
                (change_device-CollectionsValid d f (push_record item s) (
                  push_record-CollectionsValid item s
                    (failure_record-id source device error s.collection_records) h)))
              (ground arith)
      ]

module _ {A : Type 0} (p : A → Bool) where
  All-count : (xs : List A) → All (λ x. p x ≡ true) xs → count (λ x. not (p x)) xs ≤ 0
  All-count [] h = omega arith
  All-count (x ∷ xs) h = ground (arith, All-count xs h.1)

  count-All : (xs : List A) → count (λ x. not (p x)) xs ≤ 0 → All (λ x. p x ≡ true) xs
  count-All [] h = tt
  count-All (x ∷ xs) h = elim (Bool-cases (p x)) [
    | inl holds ↦ (holds, count-All xs (ground arith))
    | inr fails ↦ absurd (ground arith)
  ]

-- What is written to the tables and read again stays well-formed.
Fewer-CollectionsValid : (s t : State) → Fewer s t → CollectionsValid s → CollectionsValid t
unfolding CollectionsValid
Fewer-CollectionsValid s t fewer h = (
  record {
    bounded = fewer.bounded;
    ids = λ k. omega (arith, fewer.records (has_record_id k), h.0.ids k);
  },
  record {
    ids = λ k. omega (arith, fewer.alerts (has_alert_id k), h.1.ids k);
    single = λ d c. omega (arith, fewer.alerts (is_open d c), h.1.single d c);
    settled = count-All is_settled t.alerts (
        omega (
          arith,
          fewer.alerts (λ a. not (is_settled a)),
          All-count is_settled s.alerts h.1.settled,
        ));
  },
)

module _ (refuses : Sql → State → Bool) (clock : ℕ → ℕ) (now at : ℕ) (d purpose metric : Text)
    (s : State) where
  written-CollectionsValid :
      {A : Type 0} (m : Action State A)
      → (CollectionsValid s → CollectionsValid (m s).1)
      → CollectionsValid s
      → CollectionsValid (sqlite_update (sqlite_database refuses) m s).1
  written-CollectionsValid m step h =
      sqlite_update_keeps CollectionsValid (sqlite_database refuses) s m
        (λ a t valid written.
          Fewer-CollectionsValid a ((sqlite_database refuses).build t)
            (sqlite_database-Fewer refuses a s {t = t} written) valid)
        step h

  outcome-CollectionsValid :
      (source : Source) (outcome : Outcome)
      → CollectionsValid s
      → CollectionsValid
          (outcome_update
            (sqlite_database refuses)
            clock
            now
            at
            d
            purpose
            metric
            source
            outcome
            s).1
  unfolding outcome_update
  outcome-CollectionsValid source (collected result) h =
      written-CollectionsValid (apply_collection_success clock now at d purpose metric result)
        (apply_collection_success-CollectionsValid clock now at d purpose metric result s) h
  outcome-CollectionsValid source (failed error) h =
      written-CollectionsValid (apply_collection_failure clock now at source d purpose metric error)
        (apply_collection_failure-CollectionsValid clock now at d purpose metric source error s) h
  outcome-CollectionsValid source (raised error) h = h

-- A collection keeps at most 5000 records with unique ids and well-formed alerts in the tables:
-- on every check before it, whether the collector answers, raises a CollectorError or raises
-- another exception, and whichever statements of the write-back SQLite refuses.
pub collect_device-CollectionsValid :
    (refuses : Sql → State → Bool) (runtime : Runtime) (clock : ℕ → ℕ) (now at : ℕ) (d : Text)
    (timeout : ℕ) (purpose metric : Text) (s : State)
    → CollectionsValid s
    → CollectionsValid
        (collect_device (sqlite_database refuses) runtime clock now at d timeout purpose metric s).1
unfolding collect_device find_device
collect_device-CollectionsValid refuses runtime clock now at d timeout purpose metric s h =
    elim (Option-cases (find (has_device_id d) s.devices)) [
      | inl absent ↦ kept_when h (ground arith)
      | inr (device, found) ↦ elim (Bool-cases (nat_eq timeout 0)) [
        | inl zero ↦ kept_when h (ground arith)
        | inr positive ↦ elim (Result-cases (runtime_error runtime)) [
          | inl (e, unready) ↦ kept_when h (ground arith)
          | inr (runner, ready) ↦ elim (Bool-cases (device.status == txt "disabled")) [
            | inl off ↦ kept_when h (ground arith)
            | inr on ↦
                kept_when
                  (outcome-CollectionsValid refuses clock now at d purpose metric s runner.0
                    (runner.1 device timeout purpose) h)
                  (ground arith)
          ]
        ]
      ]
    ]
