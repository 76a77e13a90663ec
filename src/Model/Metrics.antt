-- ===== src/Model/Metrics.antt =====
-- `state["metrics"]`, the counters of the service.
use homeinfra_control_center.Prelude.{
  ℕ, suc, ◌≡◌, arith, Option, none, some, List, [], ◌∷◌, Text, ◌==◌, if◌then◌else◌,
}

-- `metrics[name] = metrics.get(name, 0) + 1`
unfoldable pub increment : Text → List (Text × ℕ) → List (Text × ℕ)
increment name [] = (name, 1) ∷ []
increment name ((key, n) ∷ counters) =
    if name == key then (key, suc n) ∷ counters else (key, n) ∷ increment name counters

-- `metrics[name]`; `none` is a KeyError.
unfoldable pub metric : Text → List (Text × ℕ) → Option ℕ
metric name [] = none
metric name ((key, n) ∷ counters) = if name == key then some n else metric name counters

pub metric-increment :
    (name : Text) (counters : List (Text × ℕ)) {n : ℕ}
    → metric name counters ≡ some n
    → metric name (increment name counters) ≡ some (suc n)
unfolding metric increment
metric-increment name [] h = cc
metric-increment name ((key, m) ∷ counters) {n} h =
    ground (arith, metric-increment name counters {n = n})
