-- ===== src/Examples/Fixtures.antt =====
-- Concrete data: a toy instance of the cryptography, one cluster with its identity, and a Hub.
use among_clusters.Prelude.{refl, some, none, [], ◌∷◌}
use among_clusters.Prelude.Int.{pos, ltb_ℤ, eqb_ℤ, ◌+ℤ◌}
use among_clusters.Text.{Text, codes, ◌==◌, is_empty, has_prefix, contains, trim_right_slash}
use among_clusters.Text.Equality.{eq_refl}
use among_clusters.Time.{Time}
use among_clusters.Model.{ControlMessage, IdentityRegistration, InvitationAcceptance}
use among_clusters.Crypto.{Crypto, IsSound}
use among_clusters.Dict
use among_clusters.Protocol
use among_clusters.Store
use among_clusters.Http
use among_clusters.Server
use among_clusters.Server.Control
use among_clusters.Server.Onboarding
use among_clusters.Server.Routes
use among_clusters.Result.{message}
use among_clusters.Time.{is_zero, before, add, seconds}
use among_clusters.Server.{Config, InvitationRequest, LinkRequest}
use among_clusters.Server.Routes.{Request, invite, accept}

-- A signature is the signed body, and every encoding is the text itself.
abbrev pub toy : Crypto
toy = record {
  verify = λ k b s. s == b;
  sign = λ k b. b;
  public = λ k. k;
  sha256 = λ t. t;
  base64_encode = λ b. b;
  base64_decode = λ t. some t;
  marshal_message = λ m. some m.nonce;
  marshal_identity = λ v. some v.cluster_id;
  unmarshal_confirmation =
      λ t. some (record { peer_ref = codes "peer"; bundle_digest = codes "digest" });
  unmarshal_observation = λ t. none;
  unmarshal_snapshot = λ t. none;
  unmarshal_fulfillment = λ t. none;
}

pub toy-IsSound : IsSound toy
toy-IsSound = record { decode-encode = λ b. refl; verify-sign = λ k b. eq_refl b }

-- Some day, as nanoseconds.
abbrev pub noon : Time
noon = pos 63000000000000000000

abbrev pub later_that_day : Time
later_that_day = pos 63000000060000000000

abbrev pub key_text : Text
key_text = codes "0123456789abcdef0123456789abcdef"

abbrev pub alpha : IdentityRegistration
alpha = record {
  cluster_id = codes "alpha";
  region = [];
  tenant = codes "acme";
  trust_domain = codes "alpha.byoc";
  spiffe_id = codes "spiffe://alpha.byoc/cluster/alpha";
  bundle_digest = codes "sha256:0123456789abcdef0123456789abcdef0123456789abcdef0123456789abcdef";
  public_key = key_text;
  capabilities = codes "service" ∷ [];
  gateway_endpoints = codes "quic://alpha.example:8443" ∷ [];
}

abbrev pub heartbeat : ControlMessage
heartbeat = record {
  issuer = codes "spiffe://alpha.byoc/cluster/alpha";
  audience = codes "hub";
  generation = 1;
  issued_at = noon;
  expires_at = later_that_day;
  nonce = codes "alpha-1";
  type = codes "identity.heartbeat";
  payload = [];
  signature = codes "alpha-1";
}

abbrev pub config : Config
config = record {
  admin_token = codes "admin";
  onboarding = record {
    public_endpoint = codes "https://hub.example/";
    tenant = codes "acme";
    provider_spiffe_id = codes "spiffe://provider/cluster/provider";
    provider_bundle_digest = codes "sha256:00";
    provider_quic_endpoint = codes "quic://provider:8443";
    image_digest = codes "sha256:11";
    chart_version = codes "0.3.7";
    provider_bundle_pem = codes "PEM";
  };
}

abbrev pub acceptance : InvitationAcceptance
acceptance = record { token = codes "secret"; identity = alpha; proof = codes "alpha" }

abbrev pub invitation_request : InvitationRequest
invitation_request = record {
  tenant = codes "acme";
  ttl_seconds = pos 0;
  capabilities = codes "service" ∷ [];
}

-- The administrator invites, and the cluster accepts.
abbrev pub inviting : Request
inviting =
    invite (codes "Bearer admin") (some invitation_request) (some (codes "i1"))
      (some (codes "secret")) noon

abbrev pub accepting : Request
accepting = accept (codes "i1") (some acceptance) noon

abbrev pub link_request : LinkRequest
link_request = record { cluster_id = codes "beta"; region = codes "eu"; ttl_seconds = pos 0 }

-- Unfolding this unfolds the code of the Hub, so that a test runs it.
unfoldable pub hub_code : Unit {0}
unfolding ◌==◌ is_empty has_prefix contains trim_right_slash is_zero before add seconds ltb_ℤ eqb_ℤ
    ◌+ℤ◌ Dict.empty Dict.get Dict.put Dict.has Protocol.hex Protocol.token_hash Protocol.is_digest
    Protocol.has_key_size Protocol.all_quic Protocol.spiffe_id_of Protocol.validate_identity
    Protocol.canonical Protocol.sign Protocol.outside_window Protocol.seen Protocol.check_signature
    Protocol.verify message Store.key Store.create_onboarding_claim Store.claim_check
    Store.consume_onboarding_claim Store.create_invitation Store.capabilities_allowed
    Store.invitation_check Store.consume_invitation Store.register_identity Store.identity
    Store.generation_of Store.last_generation Store.make_nonces Store.nonce_used Store.add_nonce
    Store.record_generation Store.confirm_peer_bundle Store.observe_link Store.sync_advertisements
    Store.pending_grants Store.fulfill_grant Http.pure Http.present Http.call Http.require Http.when
    Http.◌>>=◌ Http.respond Server.is_admin Server.ttl_or Server.valid_ttl Server.is_onboarding_name
    Server.create_invitation Server.refusal Server.accept_invitation Server.get_identity
    Control.verified Control.forbidden Control.processed Control.confirm Control.observe
    Control.advertise Control.poll Control.fulfill Control.dispatch Control.control_message
    Onboarding.claim_refusal Onboarding.create_onboarding_link Onboarding.consume_onboarding
    Onboarding.provider_bundle Routes.handle Routes.answer Routes.serve
hub_code = tt
