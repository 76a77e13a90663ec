-- ===== src/Auth/Limiter/Lockout.antt =====
-- When the limit of homeinfra/auth.py refuses a login: after five failures of a key within the
-- window, whatever other keys do in between.
use homeinfra_control_center.Prelude.{
  ℕ, suc, ◌+◌, ◌-◌, ◌/◌, ◌≤◌, ◌<◌, max, ◌≡◌, refl, ap, ◌∙◌, true, false, Option, none, some, List,
  [], ◌∷◌, ◌++◌, ==_refl, leb, keep, length, count, All, Bool-cases, inl, inr, arith, if◌then◌else◌,
}
use homeinfra_control_center.Prelude.Counting.{count-append, count_le_length}
use homeinfra_control_center.Errors.{err, rate_limited}
use homeinfra_control_center.Auth.Limiter.{
  Key, same_key, Attempts, Limits, is_recent, or_fresh, add_failure, prune_attempts, prune_entry,
  prune_failed_login_state, retry_after, ensure_login_not_rate_limited, record_failed_login,
  failed_login_window, failed_login_cooldown, refuse,
}

-- Failed logins, each with its time.
abbrev pub record_all : List (Key × ℕ) → Limits → Limits
record_all [] limits = limits
record_all ((key, at) ∷ events) limits = record_all events (record_failed_login at key limits)

abbrev pub failures_of : Key → Limits → List ℕ
failures_of key limits = (or_fresh (limits key)).failures

-- The failures of a key that are not older than `a`.
abbrev pub since : ℕ → Key → Limits → ℕ
since a key limits = count (leb a) (failures_of key limits)

module _ (a now : ℕ) (soon : now ≤ a + failed_login_window) where
  count-keep_recent : (xs : List ℕ) → count (leb a) (keep (is_recent now) xs) ≡ count (leb a) xs
  count-keep_recent [] = refl
  count-keep_recent (x ∷ xs) = ground (arith, count-keep_recent xs)

  count-no_length : (xs : List ℕ) → leb 1 (length xs) ≡ false → count (leb a) xs ≡ 0
  count-no_length [] h = refl
  count-no_length (x ∷ xs) h = ground arith

  count-prune_entry :
      (entry : Option Attempts)
      → count (leb a) (or_fresh (prune_entry now entry)).failures
        ≡ count (leb a) (or_fresh entry).failures
  unfolding prune_attempts
  count-prune_entry none = refl
  count-prune_entry (some e) =
      ground
        (arith, count-keep_recent e.failures, count-no_length (keep (is_recent now) e.failures))

  pub since-prune :
      (key : Key) (limits : Limits)
      → since a key (prune_failed_login_state now limits) ≡ since a key limits
  unfolding prune_failed_login_state
  since-prune key limits = count-prune_entry (limits key)

  count-add_failure :
      (entry : Option Attempts)
      → a ≤ now
      → count (leb a) (add_failure now entry).failures
        ≡ suc (count (leb a) (or_fresh entry).failures)
  unfolding add_failure
  count-add_failure entry late = ground (
    arith,
    count-append (leb a) (keep (is_recent now) (or_fresh entry).failures) (now ∷ []),
    count-keep_recent (or_fresh entry).failures,
  )

  five_cooldown :
      (entry : Option Attempts)
      → a ≤ now
      → 4 ≤ count (leb a) (or_fresh entry).failures
      → (add_failure now entry).cooldown_until ≡ some (now + failed_login_cooldown)
  unfolding add_failure
  five_cooldown entry late four = ground (
    arith,
    count_le_length (leb a) (keep (is_recent now) (or_fresh entry).failures ++ (now ∷ [])),
    count-append (leb a) (keep (is_recent now) (or_fresh entry).failures) (now ∷ []),
    count-keep_recent (or_fresh entry).failures,
  )

  since-record :
      (key other : Key) (limits : Limits)
      → a ≤ now
      → since a other (record_failed_login now key limits)
        ≡ (if same_key key other then suc (since a other limits) else since a other limits)
  unfolding record_failed_login
  since-record key other limits late = elim (Bool-cases (same_key key other)) [
    | inl same ↦ ground (
      arith,
      since-prune other limits,
      count-add_failure (prune_failed_login_state now limits other) late,
    )
    | inr differ ↦ ground (arith, since-prune other limits)
  ]

same_key_refl : (key : Key) → same_key key key ≡ true
same_key_refl (ip, name) = ground (arith, ==_refl ip, ==_refl name)

-- The events that failed with the key.
abbrev pub events_of : Key → List (Key × ℕ) → ℕ
events_of key events = count (λ e. same_key e.0 key) events

since-record_all :
    (a : ℕ) (key : Key) (events : List (Key × ℕ)) (limits : Limits)
    → All (λ e. (a ≤ e.1) × (e.1 ≤ a + failed_login_window)) events
    → since a key (record_all events limits) ≡ since a key limits + events_of key events
since-record_all a key [] limits timely = omega arith
since-record_all a key ((k, at) ∷ events) limits timely = ground (
  arith,
  since-record a at timely.0.1 k key limits timely.0.0,
  since-record_all a key events (record_failed_login at k limits) timely.1,
)

-- The fifth failure sets the cooldown.
locked_entry :
    (a at : ℕ) (key : Key) (limits : Limits)
    → a ≤ at
    → at ≤ a + failed_login_window
    → 4 ≤ since a key limits
    → (e : Attempts) × (record_failed_login at key limits key ≡ some e)
      × (e.cooldown_until ≡ some (at + failed_login_cooldown))
unfolding record_failed_login
locked_entry a at key limits late soon four =
    let entry = prune_failed_login_state at limits key in
    (
      add_failure at entry,
      ground (arith, same_key_refl key),
      five_cooldown a at soon entry late (ground (arith, since-prune a at soon key limits)),
    )

-- A cooldown that lasts survives the pruning and is answered with the seconds that are left.
cooling_refused :
    (now until : ℕ) (e : Attempts)
    → e.cooldown_until ≡ some until
    → now < until
    → retry_after now (prune_entry now (some e)) ≡ some (max 1 ((until - now) / 1000000))
unfolding retry_after prune_attempts
cooling_refused now until e cooling before = ground arith

-- A fifth failure locks the key for 300 seconds.
pub fifth_locks :
    (a at now : ℕ) (key : Key) (limits : Limits)
    → 4 ≤ since a key limits
    → a ≤ at
    → at ≤ a + failed_login_window
    → at ≤ now
    → now < at + failed_login_cooldown
    → (seconds : ℕ) × ((ensure_login_not_rate_limited now key (record_failed_login at key limits)).0
        ≡ err (rate_limited seconds))
      × (1 ≤ seconds)
      × (seconds ≤ 300)
unfolding ensure_login_not_rate_limited prune_failed_login_state
fifth_locks a at now key limits four late soon after before =
    let (e, entry, cooling) = locked_entry a at key limits late soon four in
    (
      max 1 ((at + failed_login_cooldown - now) / 1000000),
      ap (λ r. refuse r)
          (ap (λ o. retry_after now (prune_entry now o)) entry
            ∙ cooling_refused now (at + failed_login_cooldown) e cooling before),
      omega arith,
      omega arith,
    )

-- Once a key has failed four times within the window of 300 seconds, also between failures of
-- other keys, a further failure in the window locks it: for the next 300 seconds a check of the
-- key is refused, with a delay of 1 to 300 seconds.
pub five_failures_lock :
    (a at now : ℕ) (key : Key) (events : List (Key × ℕ)) (limits : Limits)
    → All (λ e. (a ≤ e.1) × (e.1 ≤ a + failed_login_window)) events
    → 4 ≤ events_of key events
    → a ≤ at
    → at ≤ a + failed_login_window
    → at ≤ now
    → now < at + failed_login_cooldown
    → (seconds : ℕ) × ((ensure_login_not_rate_limited now key
          (record_failed_login at key (record_all events limits))).0
        ≡ err (rate_limited seconds))
      × (1 ≤ seconds)
      × (seconds ≤ 300)
five_failures_lock a at now key events limits timely four late soon after before =
    fifth_locks a at now key (record_all events limits)
      (omega (arith, since-record_all a key events limits timely)) late soon after before
