-- ===== src/Parsers/Cpu/Bounds.antt =====
-- The CPU percentages stay between 0 and 100 where the counters only grow.
use homeinfra_control_center.Prelude.{
  ℕ, zero, suc, ◌+◌, ◌*◌, ◌≤◌, ◌<◌, ◌≡◌, refl, arith, true, inl, inr, Bool-cases, some,
  Option-cases, List, [], ◌∷◌, take, All, sort, sym, subst, length,
}
use homeinfra_control_center.Prelude.Int.{
  ℤ, pos, negsuc, pos_part, neg_part, ◌≤ℤ◌, ltb_ℤ, leb_ℤ, ◌-ℤ◌, +ℤ_parts,
}
use homeinfra_control_center.Monitoring.Values.{times_ℤ}
use homeinfra_control_center.Parsers.Numbers.{
  Decimal, Fraction, round, round_units, round_half_even,
}
use homeinfra_control_center.Parsers.Numbers.Rounding.{round_half_even-le}
use homeinfra_control_center.Parsers.Tables.{All-read_each}
use homeinfra_control_center.Parsers.Cpu.{
  Core, CpuCounters, CpuUsage, CoreUsage, sum_ℤ, cpu_busy, cpu_total, busy_percent, counters_of,
  core_ids, core_usage, per_core, compute_cpu_percent,
}

-- Each counter of the second sample is at least that of the first.
abbrev pub Grows : List ℤ → List ℤ → Type 0
Grows [] [] = Unit
Grows (x ∷ xs) (y ∷ ys) = (x ≤ℤ y) × Grows xs ys
Grows _ _ = ⊥

sum_grows : (n : ℕ) (xs ys : List ℤ) → Grows xs ys → sum_ℤ (take n xs) ≤ℤ sum_ℤ (take n ys)
sum_grows zero xs ys h = omega arith
sum_grows (suc n) [] [] h = omega arith
sum_grows (suc n) [] (y ∷ ys) h = absurd h
sum_grows (suc n) (x ∷ xs) [] h = absurd h
sum_grows (suc n) (x ∷ xs) (y ∷ ys) h =
    omega
      (arith, sum_grows n xs ys h.1, +ℤ_parts x (sum_ℤ (take n xs)), +ℤ_parts y (sum_ℤ (take n ys)))

-- `a - b ≤ c - d`, in the parts of the integers.
abbrev GrowsLess : ℤ → ℤ → ℤ → ℤ → Type 0
GrowsLess a b c d =
    pos_part a + neg_part b + (neg_part c + pos_part d)
    ≤ pos_part c + neg_part d + (neg_part a + pos_part b)

-- A longer sum grows at least as much.
longer_sum-Grows :
    (n m : ℕ) (xs ys : List ℤ)
    → n ≤ m
    → Grows xs ys
    → GrowsLess (sum_ℤ (take n ys)) (sum_ℤ (take n xs)) (sum_ℤ (take m ys)) (sum_ℤ (take m xs))
longer_sum-Grows zero m xs ys le h = omega (arith, sum_grows m xs ys h)
longer_sum-Grows (suc n) zero xs ys le h = absurd (omega arith)
longer_sum-Grows (suc n) (suc m) [] [] le h = omega arith
longer_sum-Grows (suc n) (suc m) [] (y ∷ ys) le h = absurd h
longer_sum-Grows (suc n) (suc m) (x ∷ xs) [] le h = absurd h
longer_sum-Grows (suc n) (suc m) (x ∷ xs) (y ∷ ys) le h = omega (
  arith,
  longer_sum-Grows n m xs ys (omega arith) h.1,
  +ℤ_parts x (sum_ℤ (take n xs)),
  +ℤ_parts y (sum_ℤ (take n ys)),
  +ℤ_parts x (sum_ℤ (take m xs)),
  +ℤ_parts y (sum_ℤ (take m ys)),
)

-- A percentage in tenths, from 0 to 100.
pub record IsPercent (d : Decimal) : Type 0 where
  pub scale : d.scale ≡ 1
  pub not_negative : neg_part d.digits ≡ 0
  pub at_most : pos_part d.digits ≤ 1000

round-IsPercent :
    (busy total : ℤ)
    → neg_part busy ≡ 0
    → pos_part busy ≤ pos_part total
    → 0 < pos_part total
    → IsPercent (round 1 (record { num = times_ℤ 100 busy; den = pos_part total }))
unfolding round round_units
round-IsPercent (pos b) total h le positive =
    let bound = round_half_even-le (100 * b * 10) (pos_part total) 1000 positive (omega arith) in
    record { scale = refl; not_negative = refl; at_most = bound }
round-IsPercent (negsuc b) total h le positive = absurd (omega arith)

-- What the two differences are to one another.
differences :
    (a b c d : ℤ)
    → b ≤ℤ a
    → GrowsLess a b c d
    → (neg_part (a -ℤ b) ≡ 0) × (pos_part (a -ℤ b) ≤ pos_part (c -ℤ d))
unfolding ◌-ℤ◌
differences a b c d le less = (ground arith, ground arith)

zero-IsPercent : IsPercent (round 1 (record { num = pos 0; den = 1 }))
unfolding round round_units round_half_even
zero-IsPercent = record { scale = refl; not_negative = refl; at_most = omega arith }

positive_part : (z : ℤ) → ltb_ℤ (pos 0) z ≡ true → 0 < pos_part z
positive_part (pos n) h = ground arith
positive_part (negsuc n) h = ground arith

busy_percent-IsPercent : (xs ys : List ℤ) → Grows xs ys → IsPercent (round 1 (busy_percent xs ys))
unfolding busy_percent
busy_percent-IsPercent xs ys h =
    let total = cpu_total ys -ℤ cpu_total xs in
    let busy = cpu_busy ys -ℤ cpu_busy xs in
    let grown =
      differences (sum_ℤ (take 3 ys)) (sum_ℤ (take 3 xs)) (sum_ℤ (take 8 ys)) (sum_ℤ (take 8 xs))
        (sum_grows 3 xs ys h) (longer_sum-Grows 3 8 xs ys (omega arith) h) in
    elim (Bool-cases (ltb_ℤ (pos 0) total)) [
      | inl positive ↦
          rw positive (round-IsPercent busy total grown.0 grown.1 (positive_part total positive))
      | inr no_time ↦ rw no_time zero-IsPercent
    ]

-- The same core, where both samples have it.
abbrev pub CoresGrow : List Core → List Core → Type 0
CoresGrow cores1 cores2 =
    (core_id : ℤ) (xs ys : List ℤ)
    → counters_of core_id cores1 ≡ some xs
    → counters_of core_id cores2 ≡ some ys
    → Grows xs ys

core_usage-IsPercent :
    (cores1 cores2 : List Core) (i : ℤ) (u : CoreUsage)
    → CoresGrow cores1 cores2
    → core_usage cores1 cores2 i ≡ some u
    → IsPercent u.percent
unfolding core_usage
core_usage-IsPercent cores1 cores2 i u grow e = elim (Option-cases (counters_of i cores1)) [
  | inl none1 ↦ absurd (ground arith)
  | inr (xs, e1) ↦ elim (Option-cases (counters_of i cores2)) [
    | inl none2 ↦ absurd (ground arith)
    | inr (ys, e2) ↦
        let same : u.percent ≡ round 1 (busy_percent xs ys) = ground arith in
        subst IsPercent (sym same) (busy_percent-IsPercent xs ys (grow i xs ys e1 e2))
  ]
]

-- Where no counter of the second sample is below that of the first, neither in total nor for a
-- core, a usage that is computed is a number of tenths from 0 to 100 percent, in total and for
-- each core, and the number of cores is that of the list.
pub compute_cpu_percent_bounds :
    (stat1 stat2 : CpuCounters) (elapsed : Fraction) {usage : CpuUsage}
    → Grows stat1.cpu stat2.cpu
    → CoresGrow stat1.cpu_cores stat2.cpu_cores
    → compute_cpu_percent (some stat1) (some stat2) elapsed ≡ some usage
    → IsPercent usage.cpu_percent
      × All (λ (u : CoreUsage). IsPercent u.percent) usage.per_core_cpu
      × (usage.cpu_cores ≡ length usage.per_core_cpu)
unfolding compute_cpu_percent per_core
compute_cpu_percent_bounds stat1 stat2 elapsed {usage} grow cores e =
    let used = per_core stat1.cpu_cores stat2.cpu_cores in
    let all : All (λ (u : CoreUsage). IsPercent u.percent) used =
      All-read_each (λ (u : CoreUsage). IsPercent u.percent)
        (core_usage stat1.cpu_cores stat2.cpu_cores) (sort leb_ℤ (core_ids stat1.cpu_cores))
        (λ i u found. core_usage-IsPercent stat1.cpu_cores stat2.cpu_cores i u cores found) in
    let percent : usage.cpu_percent ≡ round 1 (busy_percent stat1.cpu stat2.cpu) = ground arith in
    let listed : usage.per_core_cpu ≡ used = ground arith in
    (
      subst IsPercent (sym percent) (busy_percent-IsPercent stat1.cpu stat2.cpu grow),
      subst (All (λ (u : CoreUsage). IsPercent u.percent)) (sym listed) all,
      ground arith,
    )
