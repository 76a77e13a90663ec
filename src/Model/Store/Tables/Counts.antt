-- ===== src/Model/Store/Tables/Counts.antt =====
-- What a write-back to the tables and the next reading of them leave of the records and the alerts.
use homeinfra_control_center.Prelude.{
  ◌+◌, ◌≤◌, ◌≡◌, refl, sym, ap, ◌∙◌, subst, Bool, Option, none, some, List, [], ◌∷◌, ◌++◌, map,
  count, keep, sort, length, arith, Bool-cases, inl, inr, not, ◌==◌, leb,
}
use homeinfra_control_center.Prelude.Counting.{
  count-append, count-keep, count-sort, count-take, count-map, length-take,
}
use homeinfra_control_center.Model.State.{Record, Alert, AuditEntry, State}
use homeinfra_control_center.Model.Store.{all_statements}
use homeinfra_control_center.Model.Store.Tables.{
  Sql, insert_group, insert_device, insert_user, insert_record, insert_alert, insert_session,
  insert_log, insert_or_replace, record_row, record_order, execute, persist_state_to_tables,
  build_state_from_tables, statement, sqlite_database,
}

executed : List Sql → State → State
executed [] s = s
executed (q ∷ qs) s = executed qs (execute q s)

-- Where SQLite refuses none of the statements, all of them have been executed.
all_statements-executed :
    (refuses : Sql → State → Bool) (qs : List Sql) (s : State) {t : State}
    → all_statements (map (statement refuses) qs) s ≡ some t
    → executed qs s ≡ t
unfolding executed
all_statements-executed refuses [] s h = ground arith
all_statements-executed refuses (q ∷ qs) s {t} h = elim (Bool-cases (refuses q s)) [
  | inl refused ↦ absurd (ground arith)
  | inr done ↦ all_statements-executed refuses qs (execute q s) {t = t} (ground arith)
]

-- The row that a statement inserts into one of the tables.
abbrev record_of : Sql → Option Record
record_of (insert_record x) = some (record_row x)
record_of _ = none

abbrev alert_of : Sql → Option Alert
alert_of (insert_alert x) = some x
alert_of _ = none

module _ {ℓ} {A : Type ℓ} (of : Sql → Option A) where
  abbrev cons_row : Option A → List A → List A
  cons_row none rows = rows
  cons_row (some x) rows = x ∷ rows

  abbrev rows : List Sql → List A
  rows [] = []
  rows (q ∷ qs) = cons_row (of q) (rows qs)

  cons_row-append : (o : Option A) (xs ys : List A) → cons_row o (xs ++ ys) ≡ cons_row o xs ++ ys
  cons_row-append none xs ys = refl
  cons_row-append (some x) xs ys = refl

  rows-append : (xs ys : List Sql) → rows (xs ++ ys) ≡ rows xs ++ rows ys
  rows-append [] ys = refl
  rows-append (q ∷ xs) ys =
      ap (cons_row (of q)) (rows-append xs ys) ∙ cons_row-append (of q) (rows xs) (rows ys)

  -- Statements on the other tables insert nothing here.
  rows-others :
      {B : Type 0} (f : B → Sql) (xs : List B) (ys : List Sql)
      → ((x : B) → of (f x) ≡ none)
      → rows (map f xs ++ ys) ≡ rows ys
  rows-others f [] ys h = refl
  rows-others f (x ∷ xs) ys h = rw (h x) (rows-others f xs ys h)

rows-records :
    (xs : List Record) (ys : List Sql)
    → rows record_of (map insert_record xs ++ ys) ≡ map record_row xs ++ rows record_of ys
rows-records [] ys = refl
rows-records (x ∷ xs) ys = ap (λ rs. record_row x ∷ rs) (rows-records xs ys)

rows-alerts :
    (xs : List Alert) (ys : List Sql)
    → rows alert_of (map insert_alert xs ++ ys) ≡ xs ++ rows alert_of ys
rows-alerts [] ys = refl
rows-alerts (x ∷ xs) ys = ap (λ ys. x ∷ ys) (rows-alerts xs ys)

count-insert_or_replace :
    {A : Type 0} (p : A → Bool) (conflicts : A → A → Bool) (x : A) (xs : List A)
    → count p (insert_or_replace conflicts x xs) ≤ count p (x ∷ []) + count p xs
count-insert_or_replace p conflicts x xs = omega (
  arith,
  count-append p (keep (λ r. not (conflicts r x)) xs) (x ∷ []),
  count-keep p (λ r. not (conflicts r x)) xs,
)

execute-records :
    (p : Record → Bool) (q : Sql) (s : State)
    → count p (execute q s).collection_records
      ≤ count p (rows record_of (q ∷ [])) + count p s.collection_records
unfolding execute
execute-records p (insert_record x) s =
    count-insert_or_replace p (λ a b. a.id == b.id) (record_row x) s.collection_records
execute-records p _ s = omega arith

execute-alerts :
    (p : Alert → Bool) (q : Sql) (s : State)
    → count p (execute q s).alerts ≤ count p (rows alert_of (q ∷ [])) + count p s.alerts
unfolding execute
execute-alerts p (insert_alert x) s = count-insert_or_replace p (λ a b. a.id == b.id) x s.alerts
execute-alerts p _ s = omega arith

executed-records :
    (p : Record → Bool) (qs : List Sql) (s : State)
    → count p (executed qs s).collection_records
      ≤ count p (rows record_of qs) + count p s.collection_records
unfolding executed
executed-records p [] s = omega arith
executed-records p (q ∷ qs) s = omega (
  arith,
  executed-records p qs (execute q s),
  execute-records p q s,
  ap (count p) (rows-append record_of (q ∷ []) qs),
  count-append p (rows record_of (q ∷ [])) (rows record_of qs),
)

executed-alerts :
    (p : Alert → Bool) (qs : List Sql) (s : State)
    → count p (executed qs s).alerts ≤ count p (rows alert_of qs) + count p s.alerts
unfolding executed
executed-alerts p [] s = omega arith
executed-alerts p (q ∷ qs) s = omega (
  arith,
  executed-alerts p qs (execute q s),
  execute-alerts p q s,
  ap (count p) (rows-append alert_of (q ∷ []) qs),
  count-append p (rows alert_of (q ∷ [])) (rows alert_of qs),
)

append_nil : {A : Type 0} (xs : List A) → xs ++ [] ≡ xs
append_nil [] = refl
append_nil (x ∷ xs) = ap (λ ys. x ∷ ys) (append_nil xs)

-- The statements behind the ones that empty the tables.
module _ (s : State) where
  abbrev children : List Sql
  children =
      map insert_record s.collection_records
      ++ (map insert_alert s.alerts
          ++ (map insert_session s.sessions ++ map insert_log s.audit_logs))

  abbrev parents : List Sql → List Sql
  parents rest =
      map insert_group s.device_groups
      ++ (map insert_device s.devices ++ (map insert_user s.users ++ rest))

  logs_last {ℓ} :
      {A : Type ℓ} (of : Sql → Option A)
      → ((x : AuditEntry) → of (insert_log x) ≡ none)
      → rows of (map insert_log s.audit_logs) ≡ []
  logs_last of h =
      ap (rows of) (sym (append_nil (map insert_log s.audit_logs)))
      ∙ rows-others of insert_log s.audit_logs [] h

  persisted-records :
      rows record_of (persist_state_to_tables s) ≡ map record_row s.collection_records
  unfolding persist_state_to_tables
  persisted-records =
      rows-others record_of insert_group s.device_groups
        (map insert_device s.devices ++ (map insert_user s.users ++ children)) (λ x. refl)
      ∙ rows-others record_of insert_device s.devices (map insert_user s.users ++ children)
          (λ x. refl)
      ∙ rows-others record_of insert_user s.users children (λ x. refl)
      ∙ rows-records s.collection_records (
          map insert_alert s.alerts
          ++ (map insert_session s.sessions ++ map insert_log s.audit_logs))
      ∙ ap (λ rs. map record_row s.collection_records ++ rs)
          (rows-others record_of insert_alert s.alerts
              (map insert_session s.sessions ++ map insert_log s.audit_logs) (λ x. refl)
            ∙ rows-others record_of insert_session s.sessions (map insert_log s.audit_logs)
                (λ x. refl)
            ∙ logs_last record_of (λ x. refl))
      ∙ append_nil (map record_row s.collection_records)

  persisted-alerts : rows alert_of (persist_state_to_tables s) ≡ s.alerts
  unfolding persist_state_to_tables
  persisted-alerts =
      rows-others alert_of insert_group s.device_groups
        (map insert_device s.devices ++ (map insert_user s.users ++ children)) (λ x. refl)
      ∙ rows-others alert_of insert_device s.devices (map insert_user s.users ++ children)
          (λ x. refl)
      ∙ rows-others alert_of insert_user s.users children (λ x. refl)
      ∙ rows-others alert_of insert_record s.collection_records
          (map insert_alert s.alerts
            ++ (map insert_session s.sessions ++ map insert_log s.audit_logs))
          (λ x. refl)
      ∙ rows-alerts s.alerts (map insert_session s.sessions ++ map insert_log s.audit_logs)
      ∙ ap (λ ys. s.alerts ++ ys)
          (rows-others alert_of insert_session s.sessions (map insert_log s.audit_logs) (λ x. refl)
            ∙ logs_last alert_of (λ x. refl))
      ∙ append_nil s.alerts

-- Of the rows that satisfy a test no more are read than were written, and at most 5000 records.
pub record Fewer (s t : State) : Type 0 where
  pub records :
      (p : Record → Bool)
      → count p t.collection_records ≤ count (λ r. p (record_row r)) s.collection_records
  pub bounded : length t.collection_records ≤ 5000
  pub alerts : (p : Alert → Bool) → count p t.alerts ≤ count p s.alerts

built-Fewer :
    (s tables : State)
    → Fewer s (build_state_from_tables (executed (persist_state_to_tables s) tables))
unfolding build_state_from_tables executed execute persist_state_to_tables
built-Fewer s tables =
    let t = executed (persist_state_to_tables s) tables in
    record {
      records = λ p. omega (
        arith,
        count-take p 5000 (sort record_order t.collection_records),
        count-sort p record_order t.collection_records,
        executed-records p (persist_state_to_tables s) (record tables { collection_records = [] }),
        ap (count p) (persisted-records s),
        count-map p record_row s.collection_records,
      );
      bounded = length-take 5000 (sort record_order t.collection_records);
      alerts = λ p. omega (
        arith,
        count-sort p (λ a b. leb b.created_at a.created_at) t.alerts,
        executed-alerts p (persist_state_to_tables s)
            (record tables { collection_records = []; alerts = [] }),
        ap (count p) (persisted-alerts s),
      );
    }

pub sqlite_database-Fewer :
    (refuses : Sql → State → Bool) (s tables : State) {t : State}
    → all_statements ((sqlite_database refuses).persist s) tables ≡ some t
    → Fewer s ((sqlite_database refuses).build t)
unfolding sqlite_database
sqlite_database-Fewer refuses s tables {t} h =
    subst (λ x. Fewer s (build_state_from_tables x))
      (all_statements-executed refuses (persist_state_to_tables s) tables {t = t} h)
      (built-Fewer s tables)
