-- ===== src/Parsers/Raid/Alerting.antt =====
-- What the check of `evaluate_threshold_alerts` makes of the arrays that `parse_mdstat` reads.
use homeinfra_control_center.Prelude.{
  ℕ, suc, ◌≡◌, refl, subst, arith, Bool, inl, inr, Bool-cases, some, List, [], ◌∷◌, ◌++◌, Text, txt,
  ◌==◌, count, All, length, lower, contains, strip,
}
use homeinfra_control_center.Prelude.Counting.{count-append}
use homeinfra_control_center.Errors.{Result, ok, err}
use homeinfra_control_center.Errors.Checked.{◌>>=◌}
use homeinfra_control_center.Model.Json.{Fields, get_or, lookup}
use homeinfra_control_center.Monitoring.Values.{Check, collect}
use homeinfra_control_center.Monitoring.Thresholds.{check_raid}
use homeinfra_control_center.Parsers.Text.{before_first, stripped_lines}
use homeinfra_control_center.Parsers.Tables.{All-read_each, All-or_none, read_each, or_none}
use homeinfra_control_center.Parsers.Raid.{behind_colon, raid_array, read_array, parse_mdstat}

abbrev is_raid_abnormal : Check → Bool
is_raid_abnormal c = c.type == txt "nas_raid_abnormal"

-- The checks that were made hold this many of that type, and none raised.
abbrev pub Abnormal : ℕ → Result (List Check) → Type 0
Abnormal n (err e) = ⊥
Abnormal n (ok checks) = count is_raid_abnormal checks ≡ n

raid_array-Abnormal : (name info : Text) → Abnormal 1 (check_raid (raid_array name info))
unfolding check_raid raid_array ◌==◌ get_or lookup
raid_array-Abnormal name info = elim (Bool-cases (contains (txt "inactive") (lower info))) [
  | inl h ↦ rw h (ground arith)
  | inr h ↦ rw h (ground arith)
]

read_array-Abnormal :
    (line : Text) (raid : Fields) → read_array line ≡ some raid → Abnormal 1 (check_raid raid)
unfolding read_array
read_array-Abnormal line raid e =
    let name = strip (before_first b':' line) in
    let info = strip (behind_colon line) in
    let same : raid_array name info ≡ raid = ground arith in
    subst (λ (r : Fields). Abnormal 1 (check_raid r)) same (raid_array-Abnormal name info)

Abnormal-append :
    (n : ℕ) (r s : Result (List Check))
    → Abnormal 1 r
    → Abnormal n s
    → Abnormal (suc n) (do checks ← r; rest ← s; ok (checks ++ rest))
Abnormal-append n (ok checks) (ok rest) h k =
    omega (arith, count-append is_raid_abnormal checks rest)
Abnormal-append n (ok checks) (err e) h k = absurd k
Abnormal-append n (err e) s h k = absurd h

collect-Abnormal :
    (raids : List Fields)
    → All (λ (r : Fields). Abnormal 1 (check_raid r)) raids
    → Abnormal (length raids) (collect check_raid raids)
collect-Abnormal [] h = refl
collect-Abnormal (raid ∷ raids) h =
    Abnormal-append (length raids) (check_raid raid) (collect check_raid raids) h.0
      (collect-Abnormal raids h.1)

-- For the arrays that were read of /proc/mdstat, whatever the text, the RAID check raises no
-- error and reports each array once as being in an abnormal state.
pub parse_mdstat-Abnormal :
    (text : Text) {arrays : List Fields}
    → parse_mdstat text ≡ some arrays
    → Abnormal (length arrays) (collect check_raid arrays)
unfolding parse_mdstat
parse_mdstat-Abnormal text {arrays} e =
    let read = read_each read_array (stripped_lines text) in
    let each : All (λ (r : Fields). Abnormal 1 (check_raid r)) read =
      All-read_each (λ (r : Fields). Abnormal 1 (check_raid r)) read_array (stripped_lines text)
        read_array-Abnormal in
    let kept : or_none read ≡ some arrays = ground arith in
    collect-Abnormal arrays (All-or_none (λ (r : Fields). Abnormal 1 (check_raid r)) read kept each)
