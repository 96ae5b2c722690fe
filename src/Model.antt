-- ===== src/Model.antt =====
-- internal/model/model.go: the records that the programs exchange. A uint64 is a natural number, an
-- int or int64 an integer, and a time.Time an instant of Time.
use among_clusters.Prelude.{ℕ, Bool, List}
use among_clusters.Prelude.Int.{ℤ}
use among_clusters.Text.{Text}
use among_clusters.Time.{Time}

pub record ControlMessage : Type 0 where
  pub issuer : Text
  pub audience : Text
  pub generation : ℕ
  pub issued_at : Time
  pub expires_at : Time
  pub nonce : Text
  pub type : Text
  pub payload : Text
  pub signature : Text

pub record IdentityRegistration : Type 0 where
  pub cluster_id : Text
  pub region : Text
  pub tenant : Text
  pub trust_domain : Text
  pub spiffe_id : Text
  pub bundle_digest : Text
  pub public_key : Text
  pub capabilities : List Text
  pub gateway_endpoints : List Text

pub record Invitation : Type 0 where
  pub id : Text
  pub tenant : Text
  pub cluster_id : Text
  pub region : Text
  pub expires_at : Time
  pub capabilities : List Text
  pub token_hash : Text
  pub used_at : Time

pub record InvitationAcceptance : Type 0 where
  pub token : Text
  pub identity : IdentityRegistration
  pub proof : Text

pub record OnboardingClaim : Type 0 where
  pub id : Text
  pub cluster_id : Text
  pub region : Text
  pub tenant : Text
  pub token_hash : Text
  pub expires_at : Time
  pub used_at : Time

pub record BundleConfirmation : Type 0 where
  pub peer_ref : Text
  pub bundle_digest : Text

pub record AdvertisedService : Type 0 where
  pub name : Text
  pub namespace : Text
  pub service_class : Text
  pub protocol : Text
  pub port : ℤ
  pub target_peers : List Text
  pub ttl_seconds : ℤ
  pub policy_ref : Text
  pub generation : ℤ
  pub gateway_target : Text

pub record ServiceSnapshot : Type 0 where
  pub services : List AdvertisedService

pub record AccessRule : Type 0 where
  pub api_groups : List Text
  pub resources : List Text
  pub verbs : List Text

pub record GrantInstruction : Type 0 where
  pub name : Text
  pub tenant : Text
  pub peer_ref : Text
  pub advertisement_ref : Text
  pub generation : ℤ
  pub scope : Text
  pub namespaces : List Text
  pub rules : List AccessRule
  pub expires_at : Time
  pub revoked : Bool
  pub proxy_url : Text

pub record CredentialPayload : Type 0 where
  pub token : Text
  pub certificate_authority : Text
  pub server : Text
  pub tls_server_name : Text
  pub expires_at : Time

pub record GrantSnapshot : Type 0 where
  pub grants : List GrantInstruction

pub record GrantFulfillment : Type 0 where
  pub grant_ref : Text
  pub credential_ref : Text
  pub renewed_at : Time

pub record LinkObservation : Type 0 where
  pub link_ref : Text
  pub peer_ref : Text
  pub ready : Bool
  pub latency_millis : ℤ
  pub reason : Text
  pub last_handshake_at : Time
