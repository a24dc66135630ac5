-- ===== src/Monitoring/MountRetry/Outcome.antt =====
-- What `attempt_reconnection` of src/monitoring/mount_retry.rs returns and leaves in the configuration.
use fuji.Base.{
  ◌+◌, ◌%◌, ◌^◌, ◌≡◌, refl, ap, ◌∙◌, ◌⊎◌, inl, inr, String, Bool, true, false, Option, none, some,
  Result, ok, err, get, get-insert, eq_iff, Bool-cases, Option-cases, Decimal,
}
use fuji.Mount.Config.{MountConfig, active, error}
use fuji.Config.{Config}
use fuji.Config.Operations.{get_mount}
use fuji.Monitoring.Retry.{
  RetryHandler, CircuitBreakerState, should_allow_attempt, set_policy, get_circuit_breaker_status,
}
use fuji.Monitoring.Retry.Loop.{RetryResult, execute_with_retry}
use fuji.Monitoring.Retry.Loop.Outcome.{execute_with_retry-Ends}
use fuji.Monitoring.MountRetry.Policy.{policy_for_mount}
use fuji.Monitoring.MountRetry.{
  Shared, Answers, MountError, circuit_open, failed_after, message, change_mount, after_success,
  to_reconnecting, to_failed, breaker_or_new, conclude, mount_with_retry, reconnect,
  attempt_reconnection,
}

get_mount-change_mount :
    (f : MountConfig → MountConfig) (id : String) (c : Config) (m : MountConfig)
    → get_mount id c ≡ some m
    → get_mount id (change_mount f id c) ≡ some (f m)
unfolding get_mount change_mount
get_mount-change_mount f id c m h = elim (Option-cases (get id c.mounts)) [
  | inl e ↦ let none_some : none ≡ some m = rw (get_mount, e) at h in cc none_some
  | inr (w, e) ↦
      let same : some w.config ≡ some m = rw (get_mount, e) at h in
      let q : w.config ≡ m = cc same in
      rw (change_mount, e)
        (rw
          (
            get_mount,
            get-insert id id (record w { config = f (w.config) }) c.mounts,
            (eq_iff id id).1 refl,
          )
          (ap (λ x. some (f x)) q))
]

module _ (parse_f64 : String → Option Decimal) (answers : Answers) (mount : MountConfig) where
  -- How mounting ends.
  record Mounted (s : Shared) : Type 0 where
    after : Shared
    result : Result MountError (Unit {0})
    returns : mount_with_retry parse_f64 answers mount s ≡ some (after, result)
    cases :
        ((result ≡ ok tt)
          × (after.config ≡ change_mount (after_success answers.done_at) mount.id s.config))
        ⊎ ((e : MountError) × (result ≡ err e) × (after.config ≡ s.config))

  handler_of : Shared → RetryHandler
  handler_of s = set_policy mount.id (policy_for_mount parse_f64 mount) s.handler

  mounts : (s : Shared) → Mounted s
  unfolding mount_with_retry conclude handler_of
  mounts s =
      elim (Bool-cases
        (should_allow_attempt answers.mount_asked_at (breaker_or_new mount.id (handler_of s)))) [
          | inr e ↦ record {
            after = record { handler = handler_of s; config = s.config };
            result = err (circuit_open mount.id);
            returns = rw (mount_with_retry, e) refl;
            cases = inr (circuit_open mount.id, refl, refl);
          }
          | inl e ↦
              let ended = execute_with_retry-Ends mount.id answers.rounds (handler_of s) in
              loop e ended.after ended.result ended.returns (Option-cases ended.result.value)
        ]
    where
      loop :
          should_allow_attempt answers.mount_asked_at (breaker_or_new mount.id (handler_of s))
            ≡ true
          → (h : RetryHandler) (r : RetryResult (Unit {0}))
          → execute_with_retry mount.id answers.rounds (handler_of s) ≡ some (h, r)
          → (r.value ≡ none) ⊎ ((u : Unit {0}) × (r.value ≡ some u))
          → Mounted s
      loop e h r q (inl n) = record {
        after = record { handler = h; config = s.config };
        result = err (failed_after r.attempts);
        returns = rw (mount_with_retry, e, q) (rw n refl);
        cases = inr (failed_after r.attempts, refl, refl);
      }
      loop e h r q (inr (u, n)) = record {
        after = record {
          handler = h;
          config = change_mount (after_success answers.done_at) mount.id s.config;
        };
        result = ok tt;
        returns = rw (mount_with_retry, e, q) (rw n refl);
        cases = inl (refl, refl);
      }

  -- How an attempt to reconnect a mount of the configuration ends.
  pub record Reconnects (s : Shared) (old : MountConfig) (o : Option (Shared × Bool)) : Type 0 where
    pub after : Shared
    pub answer : Bool
    pub returns : o ≡ some (after, answer)
    pub cases :
        ((answer ≡ false)
          × (after ≡ s)
          × ((b : CircuitBreakerState) × (get_circuit_breaker_status mount.id s.handler ≡ some b)
              × (should_allow_attempt answers.asked_at b ≡ false)))
        ⊎ ((answer ≡ true)
            × ((m : MountConfig) × (get_mount mount.id after.config ≡ some m)
                × (m.status ≡ active)
                × (m.reconnect_attempts ≡ 0)))
        ⊎ ((answer ≡ false)
            × ((m : MountConfig) × (e : MountError) × (get_mount mount.id after.config ≡ some m)
                × (m.status ≡ error (message e))
                × (m.reconnect_attempts ≡ (old.reconnect_attempts + 1) % 2 ^ 32)))

  abbrev marked : Shared → Shared
  marked s = record s {
    config = change_mount (to_reconnecting answers.reconnecting_at) mount.id s.config;
  }

  reconnect-Reconnects :
      (s : Shared) (old : MountConfig)
      → get_mount mount.id s.config ≡ some old
      → Reconnects s old (reconnect parse_f64 answers mount s)
  unfolding reconnect after_success to_failed to_reconnecting
  reconnect-Reconnects s old found =
      let tried = mounts (marked s) in
      let stamped : get_mount mount.id (marked s).config
          ≡ some (to_reconnecting answers.reconnecting_at old) =
        get_mount-change_mount (to_reconnecting answers.reconnecting_at) mount.id s.config old
          found in
      elim tried.cases [
        | inl (up, kept) ↦ record {
          after = tried.after;
          answer = true;
          returns = rw (reconnect, tried.returns, up) refl;
          cases = inr (
              inl (
                refl,
                (
                  _,
                  ap (get_mount mount.id) kept
                      ∙ get_mount-change_mount (after_success answers.done_at) mount.id
                          (marked s).config _ stamped,
                  refl,
                  refl,
                ),
              ));
        }
        | inr (e, down, kept) ↦ record {
          after = record (tried.after) {
            config =
                change_mount (to_failed answers.done_at (message e)) mount.id tried.after.config;
          };
          answer = false;
          returns = rw (reconnect, tried.returns, down) refl;
          cases = inr (
              inr (
                refl,
                (
                  _,
                  e,
                  get_mount-change_mount (to_failed answers.done_at (message e)) mount.id
                      tried.after.config _ (ap (get_mount mount.id) kept ∙ stamped),
                  refl,
                  refl,
                ),
              ));
        }
      ]

  -- An attempt to reconnect a mount that is in the configuration always returns: either the mount's
  -- breaker allows no attempt, nothing changes and the answer is false; or the mount is active afterwards with no reconnect
  -- attempts counted, and the answer is true; or it is in error with the message of a failure and
  -- one reconnect attempt more, modulo 2 ^ 32, and the answer is false.
  pub attempt_reconnection-Reconnects :
      (s : Shared) (old : MountConfig)
      → get_mount mount.id s.config ≡ some old
      → Reconnects s old (attempt_reconnection parse_f64 answers mount s)
  unfolding attempt_reconnection
  attempt_reconnection-Reconnects s old found =
      elim (Option-cases (get_circuit_breaker_status mount.id s.handler)) [
        | inl e ↦ rw (attempt_reconnection, e) (reconnect-Reconnects s old found)
        | inr (b, e) ↦ elim (Bool-cases (should_allow_attempt answers.asked_at b)) [
          | inl f ↦ rw (attempt_reconnection, e, f) (reconnect-Reconnects s old found)
          | inr f ↦ record {
            after = s;
            answer = false;
            returns = rw (attempt_reconnection, e, f) refl;
            cases = inl (refl, refl, (b, e, f));
          }
        ]
      ]
