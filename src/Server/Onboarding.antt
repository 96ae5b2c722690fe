-- ===== src/Server/Onboarding.antt =====
-- internal/api/onboarding.go: onboarding links and the claims that they carry.
use among_clusters.Prelude.{not, ◌&&◌, ◌||◌, Option, List, [], ◌∷◌, ◌++◌, if◌then◌else◌}
use among_clusters.Prelude.Int.{pos}
use among_clusters.Text.{Text, codes, is_empty, contains, trim_right_slash}
use among_clusters.Time.{Time, zero_time, add, seconds}
use among_clusters.Crypto.{Crypto}
use among_clusters.Protocol.{token_hash}
use among_clusters.Result.{Error, message}
use among_clusters.Http
use among_clusters.Http.{
  Response, Action, http_error, write_json, pure, present, call, require, ◌>>=◌, ◌>>◌,
}
use among_clusters.Store.{SovereignStore}
use among_clusters.Server.{Config, LinkRequest, is_admin, is_onboarding_name, ttl_or, valid_ttl}

-- The status of a refused claim.
unfoldable pub claim_refusal : Error → Response
claim_refusal e =
    if contains (message e) (codes "used") || contains (message e) (codes "expired")
    then http_error 410 (message e)
    else http_error 401 (codes "invalid claim")

-- The capabilities that a claim's invitation carries.
abbrev pub claim_capabilities : List Text
claim_capabilities = codes "service" ∷ codes "quic-mtls" ∷ []

module _ {S : Type 0} (api : SovereignStore S) (config : Config) (c : Crypto) where
  -- createOnboardingLink
  unfoldable pub create_onboarding_link :
      Text → Option LinkRequest → Option Text → Option Text → Time → Action S Response
  create_onboarding_link header body id token now = do
    require (is_admin config header) (http_error 401 (codes "unauthorized"))
    let invalid = http_error 400 (codes "clusterID and region must be DNS-safe")
    input ← present body invalid
    require
        (is_onboarding_name input.cluster_id
          && (is_onboarding_name input.region
              && not (
                  is_empty config.onboarding.tenant || is_empty config.onboarding.public_endpoint)))
        invalid
    let ttl = ttl_or (pos 86400) input.ttl_seconds
    require (valid_ttl ttl) (http_error 400 (codes "invalid ttl"))
    id ← present id (http_error 503 (codes "entropy unavailable"))
    token ← present token (http_error 503 (codes "entropy unavailable"))
    let expires = add now (seconds ttl)
    call
        (api.create_onboarding_claim (record {
          id = id;
          cluster_id = input.cluster_id;
          region = input.region;
          tenant = config.onboarding.tenant;
          token_hash = token_hash c token;
          expires_at = expires;
          used_at = zero_time;
        }))
        (λ e. http_error 409 (codes "conflict"))
    let url =
        trim_right_slash config.onboarding.public_endpoint
        ++ (codes "/v1/onboarding/" ++ (id ++ (codes "?claim=" ++ token)))
    pure (write_json 201 (Http.claim_link input.cluster_id input.region url expires))

  -- consumeOnboarding; the claim is consumed at `now`, the invitation runs from `later`.
  unfoldable pub consume_onboarding :
      Text → Text → Option Text → Option Text → Time → Time → Action S Response
  unfolding claim_refusal
  consume_onboarding id token invitation_id invitation_token now later = do
    claim ←
        call (api.consume_onboarding_claim config.onboarding.tenant id (token_hash c token) now)
          claim_refusal
    invitation_id ← present invitation_id (http_error 503 (codes "entropy unavailable"))
    invitation_token ← present invitation_token (http_error 503 (codes "entropy unavailable"))
    call
        (api.create_invitation (record {
          id = invitation_id;
          tenant = claim.tenant;
          cluster_id = claim.cluster_id;
          region = claim.region;
          expires_at = add later (seconds (pos 900));
          capabilities = claim_capabilities;
          token_hash = token_hash c invitation_token;
          used_at = zero_time;
        }))
        (λ e. http_error 503 (codes "invitation creation failed; request a new link"))
    pure (
        write_json 200 (Http.document claim.cluster_id claim.region invitation_id invitation_token))

  -- providerBundle
  unfoldable pub provider_bundle : Action S Response
  provider_bundle = do
    require (not (is_empty config.onboarding.provider_bundle_pem))
        (http_error 503 (codes "provider bundle unavailable"))
    pure (write_json 200 (Http.pem config.onboarding.provider_bundle_pem))
