-- ===== src/Store/Claims.antt =====
-- ConsumeOnboardingClaim of the store in memory: exactly which requests consume a claim, and what
-- that changes.
use among_clusters.Prelude.{◌≡◌, refl, true, some, ◌↔◌, inl, inr, arith, ap, sym, Option-cases}
use among_clusters.Prelude.Int.{◌<ℤ◌}
use among_clusters.Text.{Text}
use among_clusters.Text.Equality.{eq_iff}
use among_clusters.Time.{Time, zero_time, before, before_iff, is_zero_iff}
use among_clusters.Dict
use among_clusters.Model.{OnboardingClaim}
use among_clusters.Result.{Result, Error, ok, err}
use among_clusters.Store.{MemoryStore, consume_onboarding_claim, claim_check, store_claim}

-- The requests that consume a claim.
pub record Consumes (v : OnboardingClaim) (tenant hash : Text) (now : Time) : Type 0 where
  pub knows_token : v.token_hash ≡ hash
  pub same_tenant : v.tenant ≡ tenant
  pub unused : v.used_at ≡ zero_time
  pub in_time : now <ℤ v.expires_at

module _ (v : OnboardingClaim) (tenant hash : Text) (now : Time) where
  check-of_Consumes :
      Consumes v tenant hash now → claim_check v tenant hash now ≡ ok (record v { used_at = now })
  unfolding claim_check
  check-of_Consumes r = ground (
    arith,
    eq_iff v.token_hash hash,
    eq_iff v.tenant tenant,
    is_zero_iff v.used_at,
    (before_iff now v.expires_at).1 r.in_time,
  )

  checks_of :
      (u : OnboardingClaim)
      → claim_check v tenant hash now ≡ ok u
      → (u ≡ record v { used_at = now })
        × (v.token_hash ≡ hash)
        × (v.tenant ≡ tenant)
        × (v.used_at ≡ zero_time)
        × (before now v.expires_at ≡ true)
  unfolding claim_check
  checks_of u h =
      ground (arith, eq_iff v.token_hash hash, eq_iff v.tenant tenant, is_zero_iff v.used_at)

  Consumes-of_check :
      (u : OnboardingClaim)
      → claim_check v tenant hash now ≡ ok u
      → Consumes v tenant hash now × (u ≡ record v { used_at = now })
  Consumes-of_check u h =
      let (result, token, same, unused, time) = checks_of u h in
      (
        record {
          knows_token = token;
          same_tenant = same;
          unused = unused;
          in_time = (before_iff now v.expires_at).0 time;
        },
        result,
      )

module _ (tenant id hash : Text) (now : Time) (s : MemoryStore) where
  stored :
      (r : Result OnboardingClaim) (u : OnboardingClaim) → (store_claim id r s).0 ≡ ok u → r ≡ ok u
  unfolding store_claim
  stored (ok v) u h = h
  stored (err e) u h = cc

  found_cases :
      (u : OnboardingClaim)
      → (consume_onboarding_claim tenant id hash now s).0 ≡ ok u
      → (v : OnboardingClaim) × (Dict.get s.onboarding_claims id ≡ some v)
        × (claim_check v tenant hash now ≡ ok u)
  unfolding consume_onboarding_claim
  found_cases u h = elim (Option-cases (Dict.get s.onboarding_claims id)) [
    | inl missing ↦ ground arith
    | inr (v, found) ↦ (v, found, stored (claim_check v tenant hash now) u (ground arith))
  ]

  consumed :
      (v u : OnboardingClaim)
      → Dict.get s.onboarding_claims id ≡ some v
      → claim_check v tenant hash now ≡ ok u
      → consume_onboarding_claim tenant id hash now s
        ≡ (ok u, record s { onboarding_claims = Dict.put s.onboarding_claims id u })
  unfolding consume_onboarding_claim
  consumed v u found checked = ground arith

  -- A claim is handed out exactly if the store holds one under the ID whose token hash and tenant
  -- match, that is unused and has not expired. What is returned is that claim, marked as used.
  pub consume_onboarding_claim_iff :
      (u : OnboardingClaim)
      → ((consume_onboarding_claim tenant id hash now s).0 ≡ ok u) ↔ (
          (v : OnboardingClaim) × (Dict.get s.onboarding_claims id ≡ some v)
          × Consumes v tenant hash now
          × (u ≡ record v { used_at = now }))
  consume_onboarding_claim_iff u = (
    (λ h.
        let (v, found, checked) = found_cases u h in
        let (consumes, result) = Consumes-of_check v tenant hash now u checked in
        (v, found, consumes, result)),
    (λ h.
        let (v, found, consumes, result) = h in
        let checked = check-of_Consumes v tenant hash now consumes in
        rw (consumed v _ found checked) (ap ok (sym result))),
  )

  -- Consuming a claim writes the used claim and nothing else.
  pub consume_onboarding_claim_state :
      (u : OnboardingClaim)
      → (consume_onboarding_claim tenant id hash now s).0 ≡ ok u
      → (consume_onboarding_claim tenant id hash now s).1
        ≡ record s { onboarding_claims = Dict.put s.onboarding_claims id u }
  consume_onboarding_claim_state u h =
      let (v, found, checked) = found_cases u h in rw (consumed v u found checked)

  unstored :
      (r : Result OnboardingClaim) (e : Error)
      → (store_claim id r s).0 ≡ err e
      → (store_claim id r s).1 ≡ s
  unfolding store_claim
  unstored (ok v) e h = cc
  unstored (err f) e h = refl

  -- A refused request changes nothing.
  pub consume_onboarding_claim_refused :
      (e : Error)
      → (consume_onboarding_claim tenant id hash now s).0 ≡ err e
      → (consume_onboarding_claim tenant id hash now s).1 ≡ s
  unfolding consume_onboarding_claim
  consume_onboarding_claim_refused e h = elim (Option-cases (Dict.get s.onboarding_claims id)) [
    | inl missing ↦ rw (missing, consume_onboarding_claim) refl
    | inr (v, found) ↦
        rw (found, consume_onboarding_claim)
          (unstored (claim_check v tenant hash now) e (ground arith))
  ]
