-- ===== src/Audit/Fresh.antt =====
-- What the audit log of homeinfra/audit.py keeps: it is bounded, and its ids are unique.
use homeinfra_control_center.Prelude.{
  ℕ, suc, ◌≤◌, ◌≡◌, refl, sym, ◌∙◌, subst, Bool, some, List, [], ◌∷◌, Text, txt, ◌==◌, ==_iff,
  length, count, All, Bool-cases, inl, inr, arith,
}
use homeinfra_control_center.Prelude.Counting.{count-take, length-take, All-take, All-weaken}
use homeinfra_control_center.Ids.Decimal.{parse_int-format_05d}
use homeinfra_control_center.Model.Metrics.{metric, metric-increment}
use homeinfra_control_center.Model.State.{AuditEntry, State}
use homeinfra_control_center.Audit.{
  audit_id, Event, new_entry, push_entry, record_mutate, max_audit_logs,
}

abbrev pub has_entry_id : Text → AuditEntry → Bool
has_entry_id k entry = entry.id == k

-- The counter is there, and the ids of the log are unique and were made of numbers up to it.
pub record AuditValid (s : State) : Type 0 where
  pub total : ℕ
  pub counted : metric (txt "audit_events_total") s.metrics ≡ some total
  pub bounded : length s.audit_logs ≤ max_audit_logs
  pub ids : (k : Text) → count (has_entry_id k) s.audit_logs ≤ 1
  pub numbered : All (λ e. (n : ℕ) × (n ≤ total) × (e.id ≡ audit_id n)) s.audit_logs

-- Two numbers with one id are equal.
audit_id-injective : (m n : ℕ) → audit_id m ≡ audit_id n → m ≡ n
unfolding audit_id
audit_id-injective m n h = ground (arith, parse_int-format_05d m, parse_int-format_05d n)

unused :
    (total : ℕ) (logs : List AuditEntry)
    → All (λ e. (n : ℕ) × (n ≤ total) × (e.id ≡ audit_id n)) logs
    → count (has_entry_id (audit_id (suc total))) logs ≡ 0
unused total [] h = refl
unused total (e ∷ logs) h =
    let (n, small, named) = h.0 in
    elim (Bool-cases (e.id == audit_id (suc total))) [
      | inl same ↦
          let equal =
            audit_id-injective n (suc total)
              (sym named ∙ (==_iff e.id (audit_id (suc total))).0 same) in
          absurd (omega (arith, equal, small))
      | inr other ↦ ground (arith, unused total logs h.1)
    ]

module _ (now : ℕ) (event : Event) (s : State) (h : AuditValid s) where
  abbrev entry : AuditEntry
  entry = new_entry now (suc h.total) event

  entry_id : entry.id ≡ audit_id (suc h.total)
  unfolding new_entry
  entry_id = refl

  entry-ids : (k : Text) → count (has_entry_id k) (entry ∷ s.audit_logs) ≤ 1
  entry-ids k = elim (Bool-cases (entry.id == k)) [
    | inl same ↦
        let absent : count (has_entry_id k) s.audit_logs ≡ 0 =
          subst (λ i. count (has_entry_id i) s.audit_logs ≡ 0)
            (sym entry_id ∙ (==_iff entry.id k).0 same) (unused h.total s.audit_logs h.numbered) in
        ground (arith, absent)
    | inr other ↦ ground (arith, h.ids k)
  ]

  pushed-AuditValid : AuditValid (push_entry entry s)
  unfolding push_entry
  pushed-AuditValid = record {
    total = suc h.total;
    counted = metric-increment (txt "audit_events_total") s.metrics h.counted;
    bounded = length-take max_audit_logs (entry ∷ s.audit_logs);
    ids = λ k.
        omega (
          arith,
          count-take {0} (has_entry_id k) max_audit_logs (entry ∷ s.audit_logs),
          entry-ids k,
        );
    numbered =
        All-take (λ (e : AuditEntry). (n : ℕ) × (n ≤ suc h.total) × (e.id ≡ audit_id n))
          max_audit_logs (entry ∷ s.audit_logs)
          (
            (suc h.total, omega arith, entry_id),
            All-weaken (λ (e : AuditEntry). (n : ℕ) × (n ≤ h.total) × (e.id ≡ audit_id n))
                (λ (e : AuditEntry). (n : ℕ) × (n ≤ suc h.total) × (e.id ≡ audit_id n)) s.audit_logs
                (λ e (n, small, named). (n, omega (arith, small), named)) h.numbered,
          );
  }

  recorded_state : (record_mutate now event s).1 ≡ push_entry entry s
  unfolding record_mutate
  recorded_state = ground (arith, h.counted)

  -- In a well-formed state an event gets an id that no entry of the log has, and the log stays
  -- well-formed: at most 5000 entries, with unique ids that were made of numbers up to the
  -- counter.
  pub record_mutate-AuditValid :
      AuditValid (record_mutate now event s).1 × (count (has_entry_id entry.id) s.audit_logs ≡ 0)
  record_mutate-AuditValid = (
    subst AuditValid (sym recorded_state) pushed-AuditValid,
    rw entry_id (unused h.total s.audit_logs h.numbered),
  )
