-- ===== src/Kubernetes/Secrets/Refinement.antt =====
-- The Kubernetes store hands out onboarding claims as the store in memory does, over an API server that
-- answers: the contract, and one attempt of the two.
use among_clusters.Prelude.{◌≡◌, ◌≢◌, ◌⊎◌, refl, sym, ◌∙◌, false, Option, none, some, arith}
use among_clusters.Text.{Text, codes, is_empty}
use among_clusters.Text.Equality.{eq_iff}
use among_clusters.Time.{Time, is_zero}
use among_clusters.Dict
use among_clusters.Dict.{get-put}
use among_clusters.Model.{OnboardingClaim}
use among_clusters.Result.{Result, Error, ok, err, invalid_claim, remote}
use among_clusters.Reconciler.{Rfc3339, parse_or_zero}
use among_clusters.Store
use among_clusters.Store.{MemoryStore, claim_check, store_claim}
use among_clusters.Versioned.{Versioned, updated, attempts, after_read, checked, after_update}
use among_clusters.Kubernetes.Secrets.{
  Secret, Secrets, claim_name, claim_of, check_secret, map_result, used_claim,
}

-- An API server that answers every call, with no other writer: an Update of what was read is done, and
-- changes no other Secret.
pub record IsReliable {S : Type 0} (secrets : Secrets S) : Type 0 where
  pub stored :
      (namespace name : Text) (v : Versioned Secret) (u : Secret) (s : S)
      → (secrets.at namespace name).get s ≡ some v
      → (t : S) × (w : Versioned Secret) × ((secrets.at namespace name).update
            (record v { value = u })
            s
          ≡ (updated, t))
        × ((secrets.at namespace name).get t ≡ some w)
        × (w.value ≡ u)
  pub others :
      (namespace name elsewhere other : Text) (v : Versioned Secret) (s t : S)
      → (secrets.at namespace name).update v s ≡ (updated, t)
      → (namespace ≢ elsewhere) ⊎ (name ≢ other)
      → (secrets.at elsewhere other).get t ≡ (secrets.at elsewhere other).get s

-- The secret holds the claim.
pub record IsSecretOf (layout : Rfc3339) (id : Text) (secret : Secret) (v : OnboardingClaim)
    : Type 0 where
  pub same_id : v.id ≡ id
  pub same_hash : secret.token_hash ≡ v.token_hash
  pub same_cluster : secret.cluster_id ≡ v.cluster_id
  pub same_region : secret.region ≡ v.region
  pub same_expiry : parse_or_zero layout secret.expires_at ≡ v.expires_at
  pub same_use : is_empty secret.used_at ≡ is_zero v.used_at

-- What the API server has under a tenant and an ID agrees with what the memory has under the ID.
unfoldable pub Agrees :
    Rfc3339 → Text → Text → Option (Versioned Secret) → Option OnboardingClaim → Type 0
Agrees layout tenant id none none = Unit {0}
Agrees layout tenant id none (some v) = v.tenant ≢ tenant
Agrees layout tenant id (some x) none = ⊥
Agrees layout tenant id (some x) (some v) = (v.tenant ≡ tenant) × IsSecretOf layout id x.value v

unfoldable pub Represents : {S : Type 0} → Rfc3339 → Secrets S → S → MemoryStore → Type 0
unfolding Agrees
Represents layout secrets s m =
    (tenant id : Text)
    → Agrees layout tenant id ((secrets.at tenant (claim_name id)).get s)
        (Dict.get m.onboarding_claims id)

module _ (layout : Rfc3339) (stamp : Time → Text) (tenant id hash : Text) (now : Time) where
  -- The checks of the two stores agree, on the result and on the entry that is written.
  module _ (x : Secret) (v : OnboardingClaim) (same : v.tenant ≡ tenant)
      (h : IsSecretOf layout id x v) where
    pub checks_agree :
        map_result (used_claim layout tenant id hash now) (check_secret layout stamp hash now x)
        ≡ claim_check v tenant hash now
    unfolding map_result used_claim claim_of check_secret claim_check
    checks_agree = ground (
      arith,
      same,
      h.same_id,
      h.same_hash,
      h.same_cluster,
      h.same_region,
      h.same_expiry,
      h.same_use,
      eq_iff x.token_hash hash,
      eq_iff v.token_hash hash,
      eq_iff v.tenant tenant,
    )

    pub written_agrees :
        (u : Secret) (w : OnboardingClaim)
        → is_empty (stamp now) ≡ false
        → is_zero now ≡ false
        → check_secret layout stamp hash now x ≡ ok u
        → claim_check v tenant hash now ≡ ok w
        → (w.tenant ≡ tenant) × IsSecretOf layout id u w
    unfolding check_secret claim_check
    written_agrees u w stamped nonzero e f =
        let secret : u ≡ record x { used_at = stamp now } = ground (arith, e) in
        let claim : w ≡ record v { used_at = now } = ground (arith, f) in
        rw (secret, claim)
          (
            same,
            record {
              same_id = h.same_id;
              same_hash = h.same_hash;
              same_cluster = h.same_cluster;
              same_region = h.same_region;
              same_expiry = h.same_expiry;
              same_use = stamped ∙ sym nonzero;
            },
          )

  -- The memory holds no claim of the tenant under the ID.
  pub refused_in_memory :
      (o : Option OnboardingClaim) (m : MemoryStore)
      → Dict.get m.onboarding_claims id ≡ o
      → Agrees layout tenant id none o
      → Store.consume_onboarding_claim tenant id hash now m ≡ (err invalid_claim, m)
  unfolding Agrees Store.consume_onboarding_claim claim_check store_claim
  refused_in_memory none m e a = rw (e, Store.consume_onboarding_claim) refl
  refused_in_memory (some v) m e a = ground (arith, e, a, eq_iff v.tenant tenant)

  pub found_in_memory :
      (v : OnboardingClaim) (m : MemoryStore)
      → Dict.get m.onboarding_claims id ≡ some v
      → Store.consume_onboarding_claim tenant id hash now m
        ≡ store_claim id (claim_check v tenant hash now) m
  unfolding Store.consume_onboarding_claim
  found_in_memory v m e = rw (e, Store.consume_onboarding_claim) refl

  module _ {S : Type 0} (secrets : Secrets S) (failure : Error) where
    abbrev pub looped : S → Result Secret × S
    looped s =
        attempts (secrets.at tenant (claim_name id)) (check_secret layout stamp hash now)
          invalid_claim (remote (codes "claim update conflict")) failure 3 s

    pub looped_missing :
        (s : S)
        → (secrets.at tenant (claim_name id)).get s ≡ none
        → looped s ≡ (err invalid_claim, s)
    unfolding attempts after_read
    looped_missing s e = ground (arith, e)

    pub looped_refused :
        (s : S) (x : Versioned Secret) (r : Error)
        → (secrets.at tenant (claim_name id)).get s ≡ some x
        → check_secret layout stamp hash now x.value ≡ err r
        → looped s ≡ (err r, s)
    unfolding attempts after_read checked
    looped_refused s x r e f = ground (arith, e, f)

    pub looped_done :
        (s t : S) (x : Versioned Secret) (u : Secret)
        → (secrets.at tenant (claim_name id)).get s ≡ some x
        → check_secret layout stamp hash now x.value ≡ ok u
        → (secrets.at tenant (claim_name id)).update (record x { value = u }) s ≡ (updated, t)
        → looped s ≡ (ok u, t)
    unfolding attempts after_read checked after_update
    looped_done s t x u e f g = ground (arith, e, f, g)
