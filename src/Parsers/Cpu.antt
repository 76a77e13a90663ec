-- ===== src/Parsers/Cpu.antt =====
-- `parse_proc_stat` and `compute_cpu_percent` of homeinfra/parsers.py.
pub mod Bounds
use homeinfra_control_center.Prelude.{
  ℕ, zero, suc, ◌+◌, ◌*◌, Bool, true, false, ◌&&◌, not, Option, none, some, List, [], ◌∷◌, ◌++◌,
  map, Text, txt, ◌==◌, strip, starts_with, ltb, leb, nat_eq, if◌then◌else◌, is_empty, take, keep,
  length, sort,
}
use homeinfra_control_center.Prelude.Int.{ℤ, pos, pos_part, neg_part, ltb_ℤ, leb_ℤ, ◌+ℤ◌, ◌-ℤ◌}
use homeinfra_control_center.Monitoring.Values.{times_ℤ}
use homeinfra_control_center.Parsers.Text.{splitlines, split, drop}
use homeinfra_control_center.Parsers.Numbers.{Decimal, Fraction, parse_integer, round}
use homeinfra_control_center.Parsers.Tables.{all_of, given, ◌>>=◌, read_each}

pub record Core : Type 0 where
  pub core : ℤ
  pub counters : List ℤ

pub record CpuCounters : Type 0 where
  pub cpu : List ℤ
  pub cpu_cores : List Core

-- The two variables of the loop.
pub record Scanned : Type 0 where
  pub cpu_aggregate : Option (List ℤ)
  pub cores : List Core

-- `[int(v) for v in parts[1:11]]`, given the parts behind the first.
unfoldable pub read_counters : List Text → Option (List ℤ)
unfolding parse_integer
read_counters parts = all_of parse_integer (take 10 parts)

unfoldable pub read_core : Text → List Text → Option Core
unfolding parse_integer read_counters
read_core label parts = do
  core_num ← parse_integer (drop 3 label)
  counters ← read_counters parts
  some (record { core = core_num; counters = counters })

-- The body of the loop, on the parts of a line.
unfoldable pub scan_parts : List Text → Scanned → Scanned
unfolding starts_with read_counters read_core
scan_parts [] s = s
scan_parts (label ∷ parts) s =
    if label == txt "cpu"
    then elim (read_counters parts) [
      | none ↦ s
      | some counters ↦ record s { cpu_aggregate = some counters }
    ]
    else if starts_with (txt "cpu") label && ltb 3 (length label)
    then elim (read_core label parts) [
      | none ↦ s
      | some found ↦ record s { cores = s.cores ++ (found ∷ []) }
    ]
    else s

unfoldable pub scan_stat : List Text → Scanned → Scanned
unfolding split scan_parts
scan_stat [] s = s
scan_stat (line ∷ lines) s = scan_stat lines (scan_parts (split line) s)

unfoldable pub parse_proc_stat : Text → Option CpuCounters
unfolding strip splitlines scan_stat
parse_proc_stat text = given text (
    let s = scan_stat (splitlines (strip text)) (record { cpu_aggregate = none; cores = [] }) in
    elim s.cpu_aggregate [
      | none ↦ none
      | some cpu ↦
          some (record { cpu = cpu; cpu_cores = sort (λ a b. leb_ℤ a.core b.core) s.cores })
    ])

abbrev pub sum_ℤ : List ℤ → ℤ
sum_ℤ [] = pos 0
sum_ℤ (x ∷ xs) = x +ℤ sum_ℤ xs

-- `_cpu_busy`, user + nice + system.
unfoldable pub cpu_busy : List ℤ → ℤ
unfolding ◌+ℤ◌
cpu_busy counters = sum_ℤ (take 3 counters)

-- `_cpu_total`, user to steal.
unfoldable pub cpu_total : List ℤ → ℤ
unfolding ◌+ℤ◌
cpu_total counters = sum_ℤ (take 8 counters)

-- `busy / total * 100.0 if total > 0 else 0.0`, on the differences of two samples.
unfoldable pub busy_percent : List ℤ → List ℤ → Fraction
unfolding cpu_busy cpu_total ◌-ℤ◌
busy_percent before after =
    let total = cpu_total after -ℤ cpu_total before in
    let busy = cpu_busy after -ℤ cpu_busy before in
    if ltb_ℤ (pos 0) total
    then record { num = times_ℤ 100 busy; den = pos_part total }
    else record { num = pos 0; den = 1 }

abbrev pub eq_ℤ : ℤ → ℤ → Bool
eq_ℤ a b = nat_eq (pos_part a + neg_part b) (pos_part b + neg_part a)

-- `{c["core"]: c["counters"] for c in cores}.get(core_id)`: the last entry of a key is kept.
unfoldable pub counters_of : ℤ → List Core → Option (List ℤ)
counters_of core_id [] = none
counters_of core_id (c ∷ cores) = elim (counters_of core_id cores) [
  | some counters ↦ some counters
  | none ↦ if eq_ℤ c.core core_id then some c.counters else none
]

-- The keys of that dictionary, each once.
unfoldable pub core_ids : List Core → List ℤ
core_ids [] = []
core_ids (c ∷ cores) = c.core ∷ keep (λ core_id. not (eq_ℤ core_id c.core)) (core_ids cores)

pub record CoreUsage : Type 0 where
  pub core : ℤ
  pub percent : Decimal

pub record CpuUsage : Type 0 where
  pub cpu_percent : Decimal
  pub cpu_cores : ℕ
  pub per_core_cpu : List CoreUsage

-- A core that both samples have.
unfoldable pub core_usage : List Core → List Core → ℤ → Option CoreUsage
unfolding counters_of busy_percent round
core_usage cores1 cores2 core_id = do
  c1 ← counters_of core_id cores1
  c2 ← counters_of core_id cores2
  some (record { core = core_id; percent = round 1 (busy_percent c1 c2) })

unfoldable pub per_core : List Core → List Core → List CoreUsage
unfolding core_ids core_usage
per_core cores1 cores2 = read_each (core_usage cores1 cores2) (sort leb_ℤ (core_ids cores1))

unfoldable pub compute_cpu_percent :
    Option CpuCounters → Option CpuCounters → Fraction → Option CpuUsage
unfolding busy_percent round per_core
compute_cpu_percent none stat2 elapsed = none
compute_cpu_percent (some stat1) none elapsed = none
compute_cpu_percent (some stat1) (some stat2) elapsed =
    if leb_ℤ elapsed.num (pos 0)
    then none
    else if ltb (length stat1.cpu) 4
    then none
    else if ltb (length stat2.cpu) 4
    then none
    else let cores = per_core stat1.cpu_cores stat2.cpu_cores in
      some (record {
        cpu_percent = round 1 (busy_percent stat1.cpu stat2.cpu);
        cpu_cores = length cores;
        per_core_cpu = cores;
      })
