-- ===== src/Lease/Settings.antt =====
-- The lease duration that the environment may set.
use open_simple_agent.Lease.{lease_seconds_from_env, validate_lease_seconds}
use open_simple_agent.Base.{Option, arith, none, some, ℕ, ◌≡◌, ◌≤◌}
use open_simple_agent.Base.Int.{negsuc, parse_int, pos, ℤ}
use open_simple_agent.Base.Text.{Text}
use open_simple_agent.Lease.{min_lease_seconds, not_an_integer}
use open_simple_agent.Base.Result.{raised, returned}

validated_bound :
    (value : ℤ) {n : ℕ} → validate_lease_seconds value ≡ returned n → min_lease_seconds ≤ n
unfolding validate_lease_seconds
validated_bound (pos n) h = ground arith
validated_bound (negsuc n) h = ground arith

-- A lease duration that the settings accept is at least five seconds, whatever the environment says.
pub lease_seconds_bound :
    (raw : Option Text) {n : ℕ} → lease_seconds_from_env raw ≡ returned n → min_lease_seconds ≤ n
unfolding lease_seconds_from_env
lease_seconds_bound none h = ground arith
lease_seconds_bound (some raw) {n} h = go (parse_int raw) h
  where
    go :
        (value : Option ℤ)
        → (elim value [ none ↦ raised not_an_integer | some v ↦ validate_lease_seconds v ])
          ≡ returned n
        → min_lease_seconds ≤ n
    go none h = ground arith
    go (some v) h = validated_bound v h
