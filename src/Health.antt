-- ===== src/Health.antt =====
-- internal/health/health.go: the state of a cluster by the age of its last heartbeat.
use among_clusters.Prelude.{
  ℕ, ◌≤◌, ◌<◌, ◌-◌, ◌^◌, ◌≡◌, ◌↔◌, Bool, true, false, arith, if◌then◌else◌,
}
use among_clusters.Prelude.Int.{pos, ◌≤ℤ◌, ◌<ℤ◌, ◌+ℤ◌, +ℤ_parts}
use among_clusters.Time.{Time, add, sub, duration_le, sub-le_iff}

pub data State : Type 0 where
  alive degraded unreachable suspended : State

-- 45 and 180 times time.Second.
abbrev pub alive_limit : ℕ
alive_limit = 45000000000

abbrev pub degraded_limit : ℕ
degraded_limit = 180000000000

-- Evaluate
pub evaluate : Time → Time → Bool → State
evaluate last_heartbeat now is_suspended =
    let age = sub now last_heartbeat in
    if is_suspended
    then suspended
    else if duration_le age (pos alive_limit)
    then alive
    else if duration_le age (pos degraded_limit)
    then degraded
    else unreachable

-- How bad a state is.
abbrev pub severity : State → ℕ
severity alive = 0
severity degraded = 1
severity unreachable = 2
severity suspended = 3

module _ (last now : Time) where
  Within : ℕ → Type 0
  Within k = (duration_le (sub now last) (pos k) ≡ true) ↔ (now ≤ℤ last +ℤ pos k)

  young : (k : ℕ) → k < 2 ^ 63 - 1 → Within k
  unfolding Within add
  young k h = sub-le_iff now last k h

  alive_iff : (evaluate last now false ≡ alive) ↔ (now ≤ℤ last +ℤ pos alive_limit)
  unfolding evaluate Within
  alive_iff =
      let a = young alive_limit (omega arith) in
      ((λ h. ground (arith, a)), (λ h. ground (arith, a)))

  degraded_iff :
      (evaluate last now false ≡ degraded)
      ↔ ((last +ℤ pos alive_limit <ℤ now) × (now ≤ℤ last +ℤ pos degraded_limit))
  unfolding evaluate Within
  degraded_iff =
      let a = young alive_limit (omega arith) in
      let d = young degraded_limit (omega arith) in
      ((λ h. ground (arith, a, d)), (λ h. ground (arith, a, d)))

  unreachable_iff : (evaluate last now false ≡ unreachable) ↔ (last +ℤ pos degraded_limit <ℤ now)
  unfolding evaluate Within
  unreachable_iff =
      let a = young alive_limit (omega arith) in
      let d = young degraded_limit (omega arith) in
      let s = +ℤ_parts last (pos alive_limit) in
      let t = +ℤ_parts last (pos degraded_limit) in
      ((λ h. ground (arith, a, d, s, t)), (λ h. ground (arith, a, d, s, t)))

  -- A cluster that is not suspended is alive up to 45 seconds after its last heartbeat, unreachable
  -- more than 180 seconds after it, and degraded in between.
  pub evaluate_iff :
      ((evaluate last now false ≡ alive) ↔ (now ≤ℤ last +ℤ pos alive_limit))
      × ((evaluate last now false ≡ degraded)
          ↔ ((last +ℤ pos alive_limit <ℤ now) × (now ≤ℤ last +ℤ pos degraded_limit)))
      × ((evaluate last now false ≡ unreachable) ↔ (last +ℤ pos degraded_limit <ℤ now))
  evaluate_iff = (alive_iff, degraded_iff, unreachable_iff)

-- As time passes with no new heartbeat, the state of a cluster never gets better.
evaluate_mono :
    (last now now' : Time) (is_suspended : Bool)
    → now ≤ℤ now'
    → severity (evaluate last now is_suspended) ≤ severity (evaluate last now' is_suspended)
unfolding evaluate add
evaluate_mono last now now' is_suspended h =
    let a = sub-le_iff now last alive_limit (omega arith) in
    let d = sub-le_iff now last degraded_limit (omega arith) in
    let a' = sub-le_iff now' last alive_limit (omega arith) in
    let d' = sub-le_iff now' last degraded_limit (omega arith) in ground (arith, a, d, a', d')
