-- ===== src/Monitoring/Scheduler/Score.antt =====
-- The status and the score that the checks of src/monitoring/scheduler.rs give.
use fuji.Base.{
  ℕ, ◌+◌, ◌-◌, ◌*◌, ◌≤◌, ◌<◌, String, Bool, true, false, none, some, List, [], ◌∷◌, length, filter,
  ◌≡◌, refl, arith, ◌⊎◌, inl, inr, Bool-cases, ltb, ◌==◌, Result, ok, err, Result-cases,
}
use fuji.Mount.Config.{MountConfig}
use fuji.Monitoring.Scheduler.{healthy, degraded, failed}
use fuji.Monitoring.Scheduler.Checks.{
  state_of, Tally, count_answer, run_all, run_health_checks_static,
}

abbrev is_good : Result String Bool → Bool
is_good (ok b) = b
is_good (err e) = false

abbrev is_bad : Result String Bool → Bool
is_bad (ok true) = false
is_bad (ok false) = true
is_bad (err e) = false

abbrev is_error : Result String Bool → Bool
is_error (ok b) = false
is_error (err e) = true

module _ (answer : String → Result String Bool) where
  -- How many of the checks are healthy, unhealthy, and end in an error.
  abbrev pub good : List String → ℕ
  good checks = length (filter (λ c. is_good (answer c)) checks)

  abbrev pub bad : List String → ℕ
  bad checks = length (filter (λ c. is_bad (answer c)) checks)

  abbrev pub errors : List String → ℕ
  errors checks = length (filter (λ c. is_error (answer c)) checks)

  run_all_lem :
      (checks : List String) (t : Tally)
      → ((run_all answer checks t).healthy_count ≡ t.healthy_count + good checks)
        × ((run_all answer checks t).health_score
            ≡ t.health_score - (20 * bad checks + 30 * errors checks))
        × (length checks ≡ good checks + bad checks + errors checks)
  unfolding run_all
  run_all_lem [] t = (omega arith, omega arith, refl)
  run_all_lem (c ∷ checks) t =
      let (g, n, l) = run_all_lem checks (count_answer (answer c) t) in
      elim (Result-cases (answer c)) [
        | inl (b, e) ↦ elim (Bool-cases b) [
          | inl q ↦ (ground (arith, e, q, g), ground (arith, e, q, n), ground (arith, e, q, l))
          | inr q ↦ (ground (arith, e, q, g), ground (arith, e, q, n), ground (arith, e, q, l))
        ]
        | inr (m, e) ↦ (ground (arith, e, g), ground (arith, e, n), ground (arith, e, l))
      ]

zero_plus : {m n : ℕ} → m ≡ 0 + n → m ≡ n
zero_plus h = omega (arith, h)

classify :
    (g wrong total : ℕ)
    → total ≡ g + wrong
    → ((wrong ≡ 0) × (state_of g total ≡ healthy))
      ⊎ ((0 < wrong) × (0 < g) × (state_of g total ≡ degraded))
      ⊎ ((0 < wrong) × (g ≡ 0) × (state_of g total ≡ failed))
classify g wrong total h = elim (Bool-cases (g == total)) [
  | inl e ↦ inl (ground (arith, e, h), ground (arith, e))
  | inr n ↦ elim (Bool-cases (ltb 0 g)) [
    | inl some_good ↦
        inr (inl (ground (arith, n, h), ground (arith, some_good), ground (arith, n, some_good)))
    | inr no_good ↦
        inr (inr (ground (arith, n, h), ground (arith, no_good), ground (arith, n, no_good)))
  ]
]

-- The checks of a mount with a configuration lower the score by 20 for each that is unhealthy and
-- by 30 for each that ends in an error, down to 0, and the score is at most 100. The mount is
-- healthy if no check is unhealthy or ends in an error, degraded if some are and another is
-- healthy, and failed if some are and none is healthy.
pub run_health_checks_static-score :
    (check : MountConfig → String → Result String Bool) (now : ℕ) (mount_id : String)
    (checks : List String) (mount : MountConfig)
    → let r = run_health_checks_static check now mount_id checks (some mount) in
      let wrong = bad (check mount) checks + errors (check mount) checks in
      (r.health_score ≡ 100 - (20 * bad (check mount) checks + 30 * errors (check mount) checks))
      × (r.health_score ≤ 100)
      × (((wrong ≡ 0) × (r.status ≡ healthy))
          ⊎ ((0 < wrong) × (0 < good (check mount) checks) × (r.status ≡ degraded))
          ⊎ ((0 < wrong) × (good (check mount) checks ≡ 0) × (r.status ≡ failed)))
unfolding run_health_checks_static
run_health_checks_static-score check now mount_id checks mount =
    let (g, n, l) =
      run_all_lem (check mount) checks
        (record { healthy_count = 0; last_error = none; health_score = 100 }) in
    (
      ground (arith, n),
      ground (arith, n),
      rw (zero_plus g) (
          classify (good (check mount) checks)
            (bad (check mount) checks + errors (check mount) checks) (length checks)
            (omega (arith, l))),
    )
