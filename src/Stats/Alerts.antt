-- ===== src/Stats/Alerts.antt =====
-- internal/stats: when `RecordUpstreamRequest` alerts.
use mathlib.Core.Path.{subst}
use kringkasting.Base.{
  both, ℕ, zero, suc, ◌+◌, ◌*◌, ◌≤◌, ◌<◌, ◌≡◌, refl, ap, ◌⊎◌, inl, inr, Bool, true, false, ◌&&◌,
  Option, none, some, List, [], ◌∷◌, arith, leb, if◌then◌else◌, Bool-cases, length, take, All,
  Bytes,
}
use kringkasting.Stats.{
  Stats, new_stats, categorize, count_in, count_day, is_error, is_health_failure, is_over,
  health_failure_threshold, record_health, record_upstream_request, day_nrk, day_nrk_errors,
}

pub record Request : Type 0 where
  pub url : Bytes
  pub method : Bytes
  pub status : ℕ
  pub at : ℕ

-- What a response does to the health: a reset, an alert, or one more failure.
abbrev Resets : ℕ → Stats → Bool × Stats → Type 0
Resets status s r =
    (is_health_failure status ≡ false)
    × (r.0 ≡ false)
    × (r.1.consecutive_failures ≡ 0)
    × (r.1.last_health_alert_at ≡ s.last_health_alert_at)

abbrev Alerts : ℕ → ℕ → Stats → Bool × Stats → Type 0
Alerts status now s r =
    (is_health_failure status ≡ true)
    × (r.0 ≡ true)
    × (r.1.consecutive_failures ≡ s.consecutive_failures + 1)
    × (r.1.last_health_alert_at ≡ some now)
    × (8 ≤ s.consecutive_failures + 1)
    × (is_over s.last_health_alert_at now ≡ true)

abbrev Fails : ℕ → Stats → Bool × Stats → Type 0
Fails status s r =
    (is_health_failure status ≡ true)
    × (r.0 ≡ false)
    × (r.1.consecutive_failures ≡ s.consecutive_failures + 1)
    × (r.1.last_health_alert_at ≡ s.last_health_alert_at)

record_health-cases :
    (status now : ℕ) (s t : Stats)
    → t.consecutive_failures ≡ s.consecutive_failures
    → t.last_health_alert_at ≡ s.last_health_alert_at
    → Resets status s (record_health status now t)
      ⊎ (Alerts status now s (record_health status now t)
          ⊎ Fails status s (record_health status now t))
unfolding record_health
record_health-cases status now s t c l = elim (Bool-cases (is_health_failure status)) [
  | inl f ↦
      rw f
        (elim (Bool-cases (
          leb health_failure_threshold (t.consecutive_failures + 1)
          && is_over t.last_health_alert_at now)) [
            | inl a ↦ rw a (
                let (le, over) =
                  both (leb health_failure_threshold (t.consecutive_failures + 1))
                    (is_over t.last_health_alert_at now) a in
                inr (
                  inl (
                    refl,
                    refl,
                    ap (λ n. n + 1) c,
                    refl,
                    ground (arith, le, c),
                    subst (λ o. is_over o now ≡ true) l over,
                  )))
            | inr q ↦ rw q (inr (inr (refl, refl, ap (λ n. n + 1) c, l)))
          ])
  | inr h ↦ rw h (inl (refl, refl, refl, l))
]

module _ (day_of : ℕ → Bytes) where
  abbrev answer : Request → Stats → Bool × Stats
  answer r s = record_upstream_request day_of r.url r.method r.status r.at s

  answer-cases :
      (r : Request) (s : Stats)
      → Resets r.status s (answer r s)
        ⊎ (Alerts r.status r.at s (answer r s) ⊎ Fails r.status s (answer r s))
  unfolding record_upstream_request
  answer-cases r s =
      let bucketed : Stats = record s {
        upstream = count_in (categorize r.url r.method) (is_error r.status) s.upstream;
      } in
      let counted : Stats = count_day (day_of r.at) day_nrk bucketed in
      record_health-cases r.status r.at s
        (if is_error r.status then count_day (day_of r.at) day_nrk_errors counted else counted)
        (elim (Bool-cases (is_error r.status)) [ inl e ↦ rw e refl | inr n ↦ rw n refl ])
        (elim (Bool-cases (is_error r.status)) [ inl e ↦ rw e refl | inr n ↦ rw n refl ])

  -- The times of the alerts of a history.
  abbrev pub alerts : List Request → Stats → List ℕ
  alerts [] s = []
  alerts (r ∷ rs) s =
      let (alerted, after) = answer r s in
      let rest = alerts rs after in if alerted then r.at ∷ rest else rest

  -- The state after a history, the newest request first.
  abbrev pub after : List Request → Stats
  after [] = new_stats
  after (r ∷ rs) = (answer r (after rs)).1

-- Each over half an hour after the one before.
abbrev pub AreSpaced : Option ℕ → List ℕ → Type 0
AreSpaced before [] = Unit
AreSpaced none (at ∷ times) = AreSpaced (some at) times
AreSpaced (some before) (at ∷ times) = (before + 30 * 60 * 1000 < at) × AreSpaced (some at) times

spaced-cons :
    (before : Option ℕ) (at : ℕ) (times : List ℕ)
    → is_over before at ≡ true
    → AreSpaced (some at) times
    → AreSpaced before (at ∷ times)
spaced-cons none at times o h = h
spaced-cons (some before) at times o h = (ground (arith, o), h)

abbrev pub AreFailures : List Request → Type 0
AreFailures rs = All (λ r. is_health_failure r.status ≡ true) rs

module _ (day_of : ℕ → Bytes) where
  -- The alerts of a history of responses come over half an hour apart, also from the last alert
  -- before it.
  pub alerts-AreSpaced :
      (rs : List Request) (s : Stats) → AreSpaced s.last_health_alert_at (alerts day_of rs s)
  alerts-AreSpaced [] s = tt
  alerts-AreSpaced (r ∷ rs) s =
      let rest = alerts-AreSpaced rs (answer day_of r s).1 in
      elim (answer-cases day_of r s) [
        | inl c ↦
            rw c.1 (subst (λ l. AreSpaced l (alerts day_of rs (answer day_of r s).1)) c.3 rest)
        | inr (inl c) ↦ rw c.1 (
            spaced-cons s.last_health_alert_at r.at _ c.5
              (subst (λ l. AreSpaced l (alerts day_of rs (answer day_of r s).1)) c.3 rest))
        | inr (inr c) ↦
            rw c.1 (subst (λ l. AreSpaced l (alerts day_of rs (answer day_of r s).1)) c.3 rest)
      ]

  one_more :
      (r : Request) (rs : List Request) (n : ℕ)
      → is_health_failure r.status ≡ true
      → (n ≤ length rs) × AreFailures (take n rs)
      → (suc n ≤ length (r ∷ rs)) × AreFailures (take (suc n) (r ∷ rs))
  one_more r rs n f h = (omega (arith, h.0), (f, h.1))

  failures-after :
      (rs : List Request) (n : ℕ)
      → n ≤ (after day_of rs).consecutive_failures
      → (n ≤ length rs) × AreFailures (take n rs)
  failures-after rs zero h = (omega arith, tt)
  failures-after [] (suc n) h = omega (arith, h)
  failures-after (r ∷ rs) (suc n) h = elim (answer-cases day_of r (after day_of rs)) [
    | inl c ↦ ground (arith, c.2, h)
    | inr (inl c) ↦ one_more r rs n c.0 (failures-after rs n (ground (arith, c.2, h)))
    | inr (inr c) ↦ one_more r rs n c.0 (failures-after rs n (ground (arith, c.2, h)))
  ]

  -- A response that alerts is the eighth failure in a row, or a later one.
  pub alert-follows_failures :
      (r : Request) (rs : List Request)
      → (record_upstream_request day_of r.url r.method r.status r.at (after day_of rs)).0 ≡ true
      → (8 ≤ length (r ∷ rs)) × AreFailures (take 8 (r ∷ rs))
  alert-follows_failures r rs h = elim (answer-cases day_of r (after day_of rs)) [
    | inl c ↦ ground (arith, c.1, h)
    | inr (inl c) ↦ one_more r rs 7 c.0 (failures-after rs 7 (ground (arith, c.4)))
    | inr (inr c) ↦ ground (arith, c.1, h)
  ]
