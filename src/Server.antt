-- ===== src/Server.antt =====
-- internal/api/sovereign_server.go and internal/api/onboarding.go: the Hub's HTTP handlers, over any
-- store that has the interface SovereignStore. A request's body is given as decoded, `none` where the
-- decoder fails; random IDs and tokens are given as drawn, `none` where the source of entropy fails;
-- `now` and `later` are the readings of the clock, in order.
pub mod Control
pub mod Onboarding
pub mod Settled
pub mod Routes
pub mod Replays
pub mod Enrollment
use among_clusters.Prelude.{
  ℕ, Bool, true, false, not, ◌&&◌, ◌||◌, Option, none, some, List, [], ◌∷◌, ◌++◌, leb, nat_eq,
  length, if◌then◌else◌,
}
use among_clusters.Prelude.Int.{ℤ, pos, ltb_ℤ, eqb_ℤ}
use among_clusters.Text.{Text, codes, ◌==◌, is_empty, has_prefix, contains, trim_right_slash}
use among_clusters.Time.{Time, zero_time, add, seconds}
use among_clusters.Model.{
  ControlMessage, IdentityRegistration, Invitation, InvitationAcceptance, OnboardingClaim,
  BundleConfirmation, LinkObservation, ServiceSnapshot, GrantInstruction, GrantSnapshot,
  GrantFulfillment,
}
use among_clusters.Crypto.{Crypto}
use among_clusters.Protocol
use among_clusters.Protocol.{VerifyError, token_hash, validate_identity}
use among_clusters.Result.{Result, Error, ok, err, message, capability_not_invited}
use among_clusters.Http.{
  Response, Action, http_error, write_json, pure, present, call, require, when, respond, ◌>>=◌,
  ◌>>◌,
}
use among_clusters.Http
use among_clusters.Store.{SovereignStore}

-- OnboardingConfig
pub record OnboardingConfig : Type 0 where
  pub public_endpoint : Text
  pub tenant : Text
  pub provider_spiffe_id : Text
  pub provider_bundle_digest : Text
  pub provider_quic_endpoint : Text
  pub image_digest : Text
  pub chart_version : Text
  pub provider_bundle_pem : Text

-- SovereignServer, without its store and its clock.
pub record Config : Type 0 where
  pub admin_token : Text
  pub onboarding : OnboardingConfig

pub record InvitationRequest : Type 0 where
  pub tenant : Text
  pub ttl_seconds : ℤ
  pub capabilities : List Text

pub record LinkRequest : Type 0 where
  pub cluster_id : Text
  pub region : Text
  pub ttl_seconds : ℤ

-- s.AdminToken != "" && Authorization == "Bearer " + s.AdminToken
unfoldable pub is_admin : Config → Text → Bool
is_admin c header = not (is_empty c.admin_token) && header == codes "Bearer " ++ c.admin_token

-- if ttl == 0 { ttl = default }
unfoldable pub ttl_or : ℤ → ℤ → ℤ
ttl_or d ttl = if eqb_ℤ ttl (pos 0) then d else ttl

-- ttl >= 60 && ttl <= 86400
unfoldable pub valid_ttl : ℤ → Bool
valid_ttl ttl = not (ltb_ℤ ttl (pos 60)) && not (ltb_ℤ (pos 86400) ttl)

unfoldable pub is_dns_byte : ℕ → Bool
is_dns_byte c = leb b'a' c && leb c b'z' || leb b'0' c && leb c b'9'

name_rest : Text → Bool
unfolding is_dns_byte
name_rest [] = false
name_rest (c ∷ []) = is_dns_byte c
name_rest (c ∷ d ∷ s) = (is_dns_byte c || nat_eq c b'-') && name_rest (d ∷ s)

-- onboardingName.MatchString
unfoldable pub is_onboarding_name : Text → Bool
unfolding name_rest is_dns_byte
is_onboarding_name [] = false
is_onboarding_name (c ∷ []) = is_dns_byte c
is_onboarding_name (c ∷ d ∷ s) = is_dns_byte c && (leb (length (d ∷ s)) 62 && name_rest (d ∷ s))

-- err == nil
abbrev pub is_none {ℓ} : {A : Type ℓ} → Option A → Bool
is_none none = true
is_none (some a) = false

module _ {S : Type 0} (api : SovereignStore S) where
  -- createInvitation
  unfoldable pub create_invitation :
      Config
      → Crypto
      → Text
      → Option InvitationRequest
      → Option Text
      → Option Text
      → Time
      → Action S Response
  create_invitation config c header body id token now = do
    require (is_admin config header) (http_error 401 (codes "unauthorized"))
    input ← present body (http_error 400 (codes "invalid invitation"))
    require (not (is_empty input.tenant)) (http_error 400 (codes "invalid invitation"))
    let ttl = ttl_or (pos 900) input.ttl_seconds
    require (valid_ttl ttl) (http_error 400 (codes "invalid ttl"))
    id ← present id (http_error 503 (codes "entropy unavailable"))
    token ← present token (http_error 503 (codes "entropy unavailable"))
    let expires = add now (seconds ttl)
    call
        (api.create_invitation (record {
          id = id;
          tenant = input.tenant;
          cluster_id = [];
          region = [];
          expires_at = expires;
          capabilities = input.capabilities;
          token_hash = token_hash c token;
          used_at = zero_time;
        }))
        (λ e. http_error 409 (codes "conflict"))
    pure (write_json 201 (Http.invitation id token expires))

  -- The status of a refused invitation.
  unfoldable pub refusal : Error → Response
  refusal e =
      if message e == codes "capability not invited"
      then http_error 403 (message e)
      else http_error 401 (message e)

  -- acceptInvitation
  unfoldable pub accept_invitation :
      Crypto → Text → Option InvitationAcceptance → Time → Action S Response
  unfolding refusal
  accept_invitation c id body now = do
    input ← present body (http_error 400 (codes "invalid identity"))
    let v = input.identity
    require (is_none (validate_identity c v)) (http_error 400 (codes "invalid identity"))
    let unproven = http_error 401 (codes "invalid ownership proof")
    key ← present (c.base64_decode v.public_key) unproven
    proof ← present (c.base64_decode input.proof) unproven
    identity_body ← present (c.marshal_identity v) unproven
    require (c.verify key identity_body proof) unproven
    inv ←
        call
          (api.consume_invitation id (token_hash c input.token) v.tenant v.cluster_id v.capabilities
            now)
          refusal
    require (inv.tenant == v.tenant) (http_error 403 (codes "tenant mismatch"))
    call (api.register_identity (record v { region = inv.region }))
        (λ e. http_error 409 (codes "identity conflict"))
    pure (write_json 201 (Http.pending v.cluster_id inv.tenant))

  -- GET /v1/identities/{tenant}/{clusterID}
  unfoldable pub get_identity : Text → Text → Action S Response
  get_identity tenant id = do
    v ← call (api.identity tenant id) (λ e. http_error 404 (codes "404 page not found"))
    pure (write_json 200 (Http.registration v))
