-- ===== src/Store.antt =====
-- MemorySovereignStore of internal/api/sovereign_store.go, the Hub's store in memory, and the
-- interface SovereignStore that it implements. A method takes the store and returns its result and
-- the store after it; each runs under the store's mutex, so a method is one step.
pub mod Invitations
pub mod Claims
pub mod Generations
pub mod Capabilities
pub mod History
use among_clusters.Prelude.{
  ℕ, Bool, true, false, not, ◌&&◌, ◌||◌, Option, none, some, List, [], ◌∷◌, ◌++◌, leb,
  if◌then◌else◌,
}
use among_clusters.Text.{Text, codes, ◌==◌, is_empty}
use among_clusters.Time.{Time, before, is_zero}
use among_clusters.Dict
use among_clusters.Dict.{Dict}
use among_clusters.Result.{
  Result, ok, err, claim_exists, invalid_claim, claim_used, claim_expired, invitation_exists,
  invalid_invitation, tenant_mismatch, cluster_mismatch, invitation_used, invitation_expired,
  capability_not_invited, identity_exists, identity_not_found, replayed_generation, replayed_nonce,
  invalid_confirmation, invalid_observation,
}
use among_clusters.Model.{
  IdentityRegistration, Invitation, OnboardingClaim, BundleConfirmation, AdvertisedService,
  GrantInstruction, GrantFulfillment, LinkObservation,
}

-- The interface, over the type of the store's state.
pub record SovereignStore (S : Type 0) : Type 0 where
  pub create_onboarding_claim : OnboardingClaim → S → Result (Unit {0}) × S
  pub consume_onboarding_claim : Text → Text → Text → Time → S → Result OnboardingClaim × S
  pub create_invitation : Invitation → S → Result (Unit {0}) × S
  pub consume_invitation : Text → Text → Text → Text → List Text → Time → S → Result Invitation × S
  pub register_identity : IdentityRegistration → S → Result (Unit {0}) × S
  pub identity : Text → Text → S → Result IdentityRegistration × S
  pub last_generation : Text → Text → S → Result ℕ × S
  pub record_generation : Text → Text → ℕ → Text → S → Result (Unit {0}) × S
  pub confirm_peer_bundle : Text → Text → BundleConfirmation → S → Result (Unit {0}) × S
  pub observe_link : Text → Text → LinkObservation → S → Result (Unit {0}) × S
  pub sync_advertisements : Text → Text → List AdvertisedService → Time → S → Result (Unit {0}) × S
  pub pending_grants : Text → Text → Time → S → Result (List GrantInstruction) × S
  pub fulfill_grant : Text → Text → GrantFulfillment → S → Result (Unit {0}) × S

pub record MemoryStore : Type 0 where
  pub invitations : Dict Invitation
  pub identities : Dict IdentityRegistration
  pub generations : Dict ℕ
  pub nonces : Dict (Dict (Unit {0}))
  pub links : Dict LinkObservation
  pub advertisements : Dict (List AdvertisedService)
  pub onboarding_claims : Dict OnboardingClaim

-- NewMemorySovereignStore
abbrev pub init : MemoryStore
init = record {
  invitations = Dict.empty;
  identities = Dict.empty;
  generations = Dict.empty;
  nonces = Dict.empty;
  links = Dict.empty;
  advertisements = Dict.empty;
  onboarding_claims = Dict.empty;
}

-- tenant + "/" + id
unfoldable pub key : Text → Text → Text
key tenant id = tenant ++ (codes "/" ++ id)

-- What a Go map gives for a missing key.
abbrev pub or_default {ℓ} : {A : Type ℓ} → A → Option A → A
or_default d none = d
or_default d (some a) = a

unfoldable pub create_onboarding_claim :
    OnboardingClaim → MemoryStore → Result (Unit {0}) × MemoryStore
create_onboarding_claim v s = elim (Dict.get s.onboarding_claims v.id) [
  | some _ ↦ (err claim_exists, s)
  | none ↦ (ok tt, record s { onboarding_claims = Dict.put s.onboarding_claims v.id v })
]

-- The checks on a claim that was found, and the entry that marks it as used.
unfoldable pub claim_check : OnboardingClaim → Text → Text → Time → Result OnboardingClaim
claim_check v tenant hash now =
    if not (v.token_hash == hash)
    then err invalid_claim
    else if not (v.tenant == tenant)
    then err invalid_claim
    else if not (is_zero v.used_at)
    then err claim_used
    else if not (before now v.expires_at)
    then err claim_expired
    else ok (record v { used_at = now })

unfoldable pub store_claim :
    Text → Result OnboardingClaim → MemoryStore → Result OnboardingClaim × MemoryStore
store_claim id (err e) s = (err e, s)
store_claim id (ok v) s = (ok v, record s { onboarding_claims = Dict.put s.onboarding_claims id v })

unfoldable pub consume_onboarding_claim :
    Text → Text → Text → Time → MemoryStore → Result OnboardingClaim × MemoryStore
unfolding store_claim
consume_onboarding_claim tenant id hash now s = elim (Dict.get s.onboarding_claims id) [
  | none ↦ (err invalid_claim, s)
  | some v ↦ store_claim id (claim_check v tenant hash now) s
]

unfoldable pub create_invitation : Invitation → MemoryStore → Result (Unit {0}) × MemoryStore
create_invitation v s = elim (Dict.get s.invitations v.id) [
  | some _ ↦ (err invitation_exists, s)
  | none ↦ (ok tt, record s { invitations = Dict.put s.invitations v.id v })
]

-- The map `allowed` of capabilitiesAllowed.
allow : Dict (Unit {0}) → List Text → Dict (Unit {0})
allow d [] = d
allow d (c ∷ cs) = allow (Dict.put d c tt) cs

all_in : Dict (Unit {0}) → List Text → Bool
all_in d [] = true
all_in d (c ∷ cs) = Dict.has d c && all_in d cs

unfoldable pub capabilities_allowed : List Text → List Text → Bool
unfolding allow all_in
capabilities_allowed invited requested = all_in (allow Dict.empty invited) requested

-- The checks on an invitation that was found, and the entry that marks it as used.
unfoldable pub invitation_check :
    Invitation → Text → Text → Text → List Text → Time → Result Invitation
invitation_check v hash tenant cluster requested now =
    if not (v.token_hash == hash)
    then err invalid_invitation
    else if not (v.tenant == tenant)
    then err tenant_mismatch
    else if not (is_empty v.cluster_id) && not (v.cluster_id == cluster)
    then err cluster_mismatch
    else if not (is_zero v.used_at)
    then err invitation_used
    else if not (before now v.expires_at)
    then err invitation_expired
    else if not (capabilities_allowed v.capabilities requested)
    then err capability_not_invited
    else ok (record v { used_at = now })

store_invitation : Text → Result Invitation → MemoryStore → Result Invitation × MemoryStore
store_invitation id (err e) s = (err e, s)
store_invitation id (ok v) s = (ok v, record s { invitations = Dict.put s.invitations id v })

unfoldable pub consume_invitation :
    Text → Text → Text → Text → List Text → Time → MemoryStore → Result Invitation × MemoryStore
unfolding store_invitation
consume_invitation id hash tenant cluster requested now s = elim (Dict.get s.invitations id) [
  | none ↦ (err invalid_invitation, s)
  | some v ↦ store_invitation id (invitation_check v hash tenant cluster requested now) s
]

unfoldable pub register_identity :
    IdentityRegistration → MemoryStore → Result (Unit {0}) × MemoryStore
register_identity v s = elim (Dict.get s.identities (key v.tenant v.cluster_id)) [
  | some _ ↦ (err identity_exists, s)
  | none ↦ (ok tt, record s { identities = Dict.put s.identities (key v.tenant v.cluster_id) v })
]

unfoldable pub identity : Text → Text → MemoryStore → Result IdentityRegistration × MemoryStore
identity tenant id s = elim (Dict.get s.identities (key tenant id)) [
  | none ↦ (err identity_not_found, s)
  | some v ↦ (ok v, s)
]

-- s.Generations[key]
unfoldable pub generation_of : Dict ℕ → Text → ℕ
generation_of generations k = or_default 0 (Dict.get generations k)

unfoldable pub last_generation : Text → Text → MemoryStore → Result ℕ × MemoryStore
unfolding generation_of
last_generation tenant id s = (ok (generation_of s.generations (key tenant id)), s)

-- if s.Nonces[key] == nil { s.Nonces[key] = map[string]struct{}{} }
unfoldable pub make_nonces : Dict (Dict (Unit {0})) → Text → Dict (Dict (Unit {0}))
make_nonces d k = elim (Dict.get d k) [ none ↦ Dict.put d k Dict.empty | some _ ↦ d ]

-- _, ok := s.Nonces[key][nonce]
unfoldable pub nonce_used : Dict (Dict (Unit {0})) → Text → Text → Bool
nonce_used d k nonce = Dict.has (or_default Dict.empty (Dict.get d k)) nonce

-- s.Nonces[key][nonce] = struct{}{}
unfoldable pub add_nonce : Dict (Dict (Unit {0})) → Text → Text → Dict (Dict (Unit {0}))
add_nonce d k nonce = Dict.put d k (Dict.put (or_default Dict.empty (Dict.get d k)) nonce tt)

unfoldable pub record_generation :
    Text → Text → ℕ → Text → MemoryStore → Result (Unit {0}) × MemoryStore
record_generation tenant id g nonce s =
    let k = key tenant id in
    let made = make_nonces s.nonces k in
    if leb g (generation_of s.generations k)
    then (err replayed_generation, s)
    else if nonce_used made k nonce
    then (err replayed_nonce, record s { nonces = made })
    else (
      ok tt,
      record s { generations = Dict.put s.generations k g; nonces = add_nonce made k nonce },
    )

unfoldable pub confirm_peer_bundle :
    Text → Text → BundleConfirmation → MemoryStore → Result (Unit {0}) × MemoryStore
confirm_peer_bundle tenant issuer v s =
    if is_empty v.peer_ref || is_empty v.bundle_digest
    then (err invalid_confirmation, s)
    else (ok tt, s)

unfoldable pub observe_link :
    Text → Text → LinkObservation → MemoryStore → Result (Unit {0}) × MemoryStore
observe_link tenant issuer v s =
    if is_empty v.link_ref || is_empty v.peer_ref
    then (err invalid_observation, s)
    else (ok tt, record s { links = Dict.put s.links (key tenant v.link_ref) v })

unfoldable pub sync_advertisements :
    Text → Text → List AdvertisedService → Time → MemoryStore → Result (Unit {0}) × MemoryStore
sync_advertisements tenant issuer services now s =
    (ok tt, record s { advertisements = Dict.put s.advertisements (key tenant issuer) services })

unfoldable pub pending_grants :
    Text → Text → Time → MemoryStore → Result (List GrantInstruction) × MemoryStore
pending_grants tenant issuer now s = (ok [], s)

unfoldable pub fulfill_grant :
    Text → Text → GrantFulfillment → MemoryStore → Result (Unit {0}) × MemoryStore
fulfill_grant tenant issuer v s = (ok tt, s)

abbrev pub memory_store : SovereignStore MemoryStore
memory_store = record {
  create_onboarding_claim = create_onboarding_claim;
  consume_onboarding_claim = consume_onboarding_claim;
  create_invitation = create_invitation;
  consume_invitation = consume_invitation;
  register_identity = register_identity;
  identity = identity;
  last_generation = last_generation;
  record_generation = record_generation;
  confirm_peer_bundle = confirm_peer_bundle;
  observe_link = observe_link;
  sync_advertisements = sync_advertisements;
  pending_grants = pending_grants;
  fulfill_grant = fulfill_grant;
}
