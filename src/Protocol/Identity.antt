-- ===== src/Protocol/Identity.antt =====
-- ValidateIdentity of internal/protocol/control.go: which registrations it accepts, and that the
-- token hashes which the programs compute have the form that it asks of a bundle digest.
use among_clusters.Prelude.{
  ◌<◌, ◌*◌, ◌≡◌, ◌≢◌, refl, true, Option, none, some, List, [], ◌∷◌, ◌↔◌, arith, length, All,
  and-eq_true,
}
use among_clusters.Text.{Text, codes, has_prefix}
use among_clusters.Text.Equality.{eq_iff, is_empty_iff}
use among_clusters.Model.{IdentityRegistration}
use among_clusters.Crypto.{Crypto}
use among_clusters.Protocol.{
  hex, all_hex, is_digest, token_hash, public_key_size, has_key_size, all_quic, spiffe_id_of,
  validate_identity,
}

abbrev HasQuicScheme : Text → Type 0
HasQuicScheme e = has_prefix e (codes "quic://") ≡ true

-- The registrations that the Hub accepts.
pub record IsRegistrable (c : Crypto) (v : IdentityRegistration) : Type 0 where
  pub has_cluster : v.cluster_id ≢ []
  pub has_tenant : v.tenant ≢ []
  pub has_domain : v.trust_domain ≢ []
  pub spiffe : v.spiffe_id ≡ spiffe_id_of v.trust_domain v.cluster_id
  pub digest : is_digest v.bundle_digest ≡ true
  pub key : Text
  pub key_decodes : c.base64_decode v.public_key ≡ some key
  pub key_size : length key ≡ public_key_size
  pub endpoints : All HasQuicScheme v.gateway_endpoints

all_quic_iff : (es : List Text) → (all_quic es ≡ true) ↔ All HasQuicScheme es
unfolding all_quic
all_quic_iff [] = ((λ h. tt), (λ h. refl))
all_quic_iff (e ∷ es) = (
  (λ h. let both = (and-eq_true _ (all_quic es)).0 h in (both.0, (all_quic_iff es).0 both.1)),
  (λ h. (and-eq_true _ (all_quic es)).1 (h.0, (all_quic_iff es).1 h.1)),
)

key_of_size :
    (o : Option Text)
    → has_key_size o ≡ true
    → (k : Text) × (o ≡ some k) × (length k ≡ public_key_size)
unfolding has_key_size
key_of_size o h = ground arith

module _ (c : Crypto) (v : IdentityRegistration) where
  checks_of :
      validate_identity c v ≡ none
      → (v.cluster_id ≢ [])
        × (v.tenant ≢ [])
        × (v.trust_domain ≢ [])
        × (v.spiffe_id ≡ spiffe_id_of v.trust_domain v.cluster_id)
        × (is_digest v.bundle_digest ≡ true)
        × (has_key_size (c.base64_decode v.public_key) ≡ true)
        × (all_quic v.gateway_endpoints ≡ true)
  unfolding validate_identity
  checks_of h = ground (
    arith,
    is_empty_iff v.cluster_id,
    is_empty_iff v.tenant,
    is_empty_iff v.trust_domain,
    eq_iff v.spiffe_id (spiffe_id_of v.trust_domain v.cluster_id),
  )

  accepted : validate_identity c v ≡ none → IsRegistrable c v
  accepted h =
      let (cluster, tenant, domain, spiffe, digest, size, quic) = checks_of h in
      let (key, decodes, key_size) = key_of_size (c.base64_decode v.public_key) size in
      record {
        has_cluster = cluster;
        has_tenant = tenant;
        has_domain = domain;
        spiffe = spiffe;
        digest = digest;
        key = key;
        key_decodes = decodes;
        key_size = key_size;
        endpoints = (all_quic_iff v.gateway_endpoints).0 quic;
      }

  size_of_key : IsRegistrable c v → has_key_size (c.base64_decode v.public_key) ≡ true
  unfolding has_key_size
  size_of_key h = ground (arith, h.key_decodes, h.key_size)

  complete : IsRegistrable c v → validate_identity c v ≡ none
  unfolding validate_identity
  complete h = ground (
    arith,
    is_empty_iff v.cluster_id,
    is_empty_iff v.tenant,
    is_empty_iff v.trust_domain,
    eq_iff v.spiffe_id (spiffe_id_of v.trust_domain v.cluster_id),
    size_of_key h,
    (all_quic_iff v.gateway_endpoints).1 h.endpoints,
  )

  -- A registration is accepted exactly if it names a cluster, a tenant and a trust domain, its SPIFFE
  -- ID is the one of that domain and cluster, its digest has the form of one, its key decodes to 32
  -- bytes, and every endpoint is a quic one.
  pub validate_identity_iff : (validate_identity c v ≡ none) ↔ IsRegistrable c v
  validate_identity_iff = (accepted, complete)

all_hex-hex : (b : Text) → All (λ x. x < 256) b → all_hex (hex b) ≡ true
unfolding hex all_hex
all_hex-hex [] h = refl
all_hex-hex (x ∷ b) h = ground (arith, all_hex-hex b h.1)

length-hex : (b : Text) → length (hex b) ≡ 2 * length b
unfolding hex
length-hex [] = refl
length-hex (x ∷ b) = omega (arith, length-hex b)

-- Where SHA-256 gives 32 bytes, a token hash has the form of a digest.
pub token_hash-is_digest :
    (c : Crypto) (token : Text)
    → length (c.sha256 token) ≡ 32
    → All (λ x. x < 256) (c.sha256 token)
    → is_digest (token_hash c token) ≡ true
unfolding is_digest token_hash
token_hash-is_digest c token size bytes =
    ground (arith, length-hex (c.sha256 token), all_hex-hex (c.sha256 token) bytes)
