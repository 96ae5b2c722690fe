-- ===== src/Kubernetes/Secrets.antt =====
-- internal/api/sovereign_store.go: KubernetesSovereignStore, onboarding claims and invitations, each
-- kept in a Secret of the tenant's namespace. `stamp` is time.Format with the layout RFC3339Nano,
-- `failure` the error of the API server, and the codec that of the capabilities in JSON.
pub mod Claims
pub mod Refinement
pub mod Simulation
use among_clusters.Prelude.{ℕ, Bool, true, false, not, ◌&&◌, List, [], ◌∷◌, ◌++◌, if◌then◌else◌}
use among_clusters.Text.{Text, codes, ◌==◌, is_empty}
use among_clusters.Time.{Time, zero_time, before}
use among_clusters.Model.{OnboardingClaim, Invitation}
use among_clusters.Result.{
  Result, Error, ok, err, remote, invalid_claim, claim_used, claim_expired, invalid_invitation,
  cluster_mismatch, invitation_used, invitation_expired, capability_not_invited,
}
use among_clusters.Store.{capabilities_allowed}
use among_clusters.Reconciler.{Rfc3339, parse_or_zero}
use among_clusters.Versioned.{Api, attempts}

-- The data and the annotations that the store reads and writes; a missing one is read as empty.
pub record Secret : Type 0 where
  pub token_hash : Text
  pub cluster_id : Text
  pub region : Text
  pub capabilities : Text
  pub expires_at : Text
  pub used_at : Text

-- The Secrets of the API server, by namespace and name.
pub record Secrets (S : Type 0) : Type 0 where
  pub at : Text → Text → Api S Secret
  pub create : Text → Text → Secret → S → Result (Unit {0}) × S

-- json.Marshal and json.Unmarshal of the capabilities; what does not decode leaves the list as far as
-- it was read.
pub record Codec : Type 0 where
  pub encode : List Text → Text
  pub decode : Text → List Text

unfoldable pub claim_name : Text → Text
claim_name id = codes "among-clusters-claim-" ++ id

unfoldable pub invitation_name : Text → Text
invitation_name id = codes "among-clusters-invite-" ++ id

-- The secret of CreateOnboardingClaim.
unfoldable pub claim_secret : Rfc3339 → OnboardingClaim → Secret
claim_secret layout v = record {
  token_hash = v.token_hash;
  cluster_id = v.cluster_id;
  region = v.region;
  capabilities = [];
  expires_at = layout.format v.expires_at;
  used_at = [];
}

-- The secret of CreateInvitation.
unfoldable pub invitation_secret : Rfc3339 → Codec → Invitation → Secret
invitation_secret layout codec v = record {
  token_hash = v.token_hash;
  cluster_id = v.cluster_id;
  region = v.region;
  capabilities = codec.encode v.capabilities;
  expires_at = layout.format v.expires_at;
  used_at = [];
}

-- The claim that a secret with the right hash holds, before it is used.
unfoldable pub claim_of : Rfc3339 → Text → Text → Text → Secret → OnboardingClaim
claim_of layout tenant id hash secret = record {
  id = id;
  cluster_id = secret.cluster_id;
  region = secret.region;
  tenant = tenant;
  token_hash = hash;
  expires_at = parse_or_zero layout secret.expires_at;
  used_at = zero_time;
}

-- The invitation that a secret holds.
unfoldable pub invitation_of : Rfc3339 → Codec → Text → Text → Secret → Invitation
invitation_of layout codec tenant id secret = record {
  id = id;
  tenant = tenant;
  cluster_id = secret.cluster_id;
  region = secret.region;
  expires_at = parse_or_zero layout secret.expires_at;
  capabilities = codec.decode secret.capabilities;
  token_hash = secret.token_hash;
  used_at = zero_time;
}

-- One attempt of ConsumeOnboardingClaim between the Get and the Update.
unfoldable pub check_secret : Rfc3339 → (Time → Text) → Text → Time → Secret → Result Secret
check_secret layout stamp hash now secret =
    if not (secret.token_hash == hash)
    then err invalid_claim
    else if not (is_empty secret.used_at)
    then err claim_used
    else if not (before now (parse_or_zero layout secret.expires_at))
    then err claim_expired
    else ok (record secret { used_at = stamp now })

-- ConsumeInvitation between the Get and the Update, for the invitation `v` of the secret.
unfoldable pub check_invitation :
    (Time → Text) → Text → Text → List Text → Time → Invitation → Secret → Result Secret
check_invitation stamp hash cluster requested now v secret =
    if not (v.token_hash == hash)
    then err invalid_invitation
    else if not (is_empty v.cluster_id) && not (v.cluster_id == cluster)
    then err cluster_mismatch
    else if not (is_empty secret.used_at)
    then err invitation_used
    else if not (before now v.expires_at)
    then err invitation_expired
    else if not (capabilities_allowed v.capabilities requested)
    then err capability_not_invited
    else ok (record secret { used_at = stamp now })

-- The result for the caller.
unfoldable pub map_result {ℓ κ} : {A : Type ℓ} {B : Type κ} → (A → B) → Result A → Result B
map_result f (ok a) = ok (f a)
map_result f (err e) = err e

-- v.UsedAt = now
unfoldable pub used_claim : Rfc3339 → Text → Text → Text → Time → Secret → OnboardingClaim
unfolding claim_of
used_claim layout tenant id hash now secret = record (claim_of layout tenant id hash secret) {
  used_at = now;
}

module _ {S : Type 0} (secrets : Secrets S) (layout : Rfc3339) (codec : Codec) (stamp : Time → Text)
    (failure : Error) where
  unfoldable pub create_onboarding_claim : OnboardingClaim → S → Result (Unit {0}) × S
  unfolding claim_secret claim_name
  create_onboarding_claim v s = secrets.create v.tenant (claim_name v.id) (claim_secret layout v) s

  -- ConsumeOnboardingClaim
  unfoldable pub consume_onboarding_claim :
      Text → Text → Text → Time → S → Result OnboardingClaim × S
  unfolding claim_name check_secret attempts map_result used_claim
  consume_onboarding_claim tenant id hash now s =
      let (r, t) =
        attempts (secrets.at tenant (claim_name id)) (check_secret layout stamp hash now)
          invalid_claim (remote (codes "claim update conflict")) failure 3 s in
      (map_result (used_claim layout tenant id hash now) r, t)

  unfoldable pub create_invitation : Invitation → S → Result (Unit {0}) × S
  unfolding invitation_secret invitation_name
  create_invitation v s =
      secrets.create v.tenant (invitation_name v.id) (invitation_secret layout codec v) s

  -- ConsumeInvitation, one attempt: a conflict is reported like any other error of the API server.
  unfoldable pub consume_invitation :
      Text → Text → Text → Text → List Text → Time → S → Result Invitation × S
  unfolding invitation_name check_invitation invitation_of attempts map_result
  consume_invitation id hash tenant cluster requested now s =
      let (r, t) =
        attempts (secrets.at tenant (invitation_name id))
          (λ secret.
            check_invitation stamp hash cluster requested now
              (invitation_of layout codec tenant id secret) secret)
          (remote (codes "invitation not found")) failure failure 1 s in
      (map_result (invitation_of layout codec tenant id) r, t)
