-- ===== src/Protocol.antt =====
-- internal/protocol/control.go: token hashes, the checks on an identity, and signed control messages.
pub mod Verification
pub mod Identity
use among_clusters.Prelude.{
  ℕ, ◌-◌, ◌/◌, ◌%◌, ◌+◌, Bool, true, false, not, ◌&&◌, ◌||◌, Option, none, some, List, [], ◌∷◌,
  ◌++◌, leb, ltb, nat_eq, if◌then◌else◌, length, drop,
}
use among_clusters.Prelude.Int.{negsuc}
use among_clusters.Text.{Text, codes, ◌==◌, is_empty, has_prefix}
use among_clusters.Time.{Time, before, add, seconds}
use among_clusters.Model.{ControlMessage, IdentityRegistration}
use among_clusters.Crypto.{Crypto}

hex_digit : ℕ → ℕ
hex_digit d = if ltb d 10 then b'0' + d else b'a' + (d - 10)

-- hex.EncodeToString
unfoldable pub hex : Text → Text
unfolding hex_digit
hex [] = []
hex (c ∷ s) = hex_digit (c / 16) ∷ hex_digit (c % 16) ∷ hex s

abbrev pub sha256_prefix : Text
sha256_prefix = codes "sha256:"

-- TokenHash
unfoldable pub token_hash : Crypto → Text → Text
unfolding hex
token_hash c token = sha256_prefix ++ hex (c.sha256 token)

is_hex : ℕ → Bool
is_hex c = (leb b'a' c && leb c b'f') || (leb b'0' c && leb c b'9')

all_hex : Text → Bool
unfolding is_hex
all_hex [] = true
all_hex (c ∷ s) = is_hex c && all_hex s

-- digestPattern.MatchString
unfoldable pub is_digest : Text → Bool
unfolding all_hex has_prefix
is_digest s =
    let rest = drop 7 s in has_prefix s sha256_prefix && (nat_eq (length rest) 64 && all_hex rest)

-- The error texts of ValidateIdentity, in the order of its checks.
pub data IdentityError : Type 0 where
  required_fields spiffe_mismatch invalid_digest invalid_key not_quic : IdentityError

abbrev pub public_key_size : ℕ
public_key_size = 32

unfoldable pub has_key_size : Option Text → Bool
has_key_size none = false
has_key_size (some key) = nat_eq (length key) public_key_size

unfoldable pub all_quic : List Text → Bool
unfolding has_prefix
all_quic [] = true
all_quic (e ∷ es) = has_prefix e (codes "quic://") && all_quic es

-- "spiffe://" + trustDomain + "/cluster/" + clusterID
unfoldable pub spiffe_id_of : Text → Text → Text
spiffe_id_of domain cluster = codes "spiffe://" ++ (domain ++ (codes "/cluster/" ++ cluster))

-- ValidateIdentity; none is a nil error.
unfoldable pub validate_identity : Crypto → IdentityRegistration → Option IdentityError
validate_identity c v =
    if is_empty v.cluster_id || (is_empty v.tenant || is_empty v.trust_domain)
    then some required_fields
    else if not (v.spiffe_id == spiffe_id_of v.trust_domain v.cluster_id)
    then some spiffe_mismatch
    else if not (is_digest v.bundle_digest)
    then some invalid_digest
    else if not (has_key_size (c.base64_decode v.public_key))
    then some invalid_key
    else if not (all_quic v.gateway_endpoints)
    then some not_quic
    else none

-- canonical: the JSON of the message with its signature cleared.
unfoldable pub canonical : Crypto → ControlMessage → Option Text
canonical c m = c.marshal_message (record m { signature = [] })

-- Sign: the message with its signature set, or none where the encoder fails.
unfoldable pub sign : Crypto → ControlMessage → Text → Option ControlMessage
unfolding canonical
sign c m key = elim (canonical c m) [
  | none ↦ none
  | some body ↦ some (record m { signature = c.base64_encode (c.sign key body) })
]

-- The errors of Verify, in the order of its checks.
pub data VerifyError : Type 0 where
  wrong_audience missing_identity replayed_generation expired_or_future : VerifyError
  replayed_nonce decode_failed marshal_failed invalid_signature : VerifyError

-- The tests on the three instants of an envelope.
unfoldable pub outside_window : ControlMessage → Time → Bool
outside_window m now =
    not (before m.issued_at m.expires_at)
    || (before now (add m.issued_at (seconds (negsuc 119))) || not (before now m.expires_at))

-- seenNonce != nil && seenNonce(nonce)
unfoldable pub seen : Option (Text → Bool) → Text → Bool
seen none nonce = false
seen (some f) nonce = f nonce

-- The end of Verify, from the decoding of the signature on.
unfoldable pub check_signature : Crypto → ControlMessage → Text → Option VerifyError
unfolding canonical
check_signature c m key = elim (c.base64_decode m.signature) [
  | none ↦ some decode_failed
  | some signature ↦ elim (canonical c m) [
    | none ↦ some marshal_failed
    | some body ↦ if c.verify key body signature then none else some invalid_signature
  ]
]

-- Verify; none is a nil error.
unfoldable pub verify :
    Crypto → ControlMessage → Text → Text → Time → ℕ → Option (Text → Bool) → Option VerifyError
verify c m key audience now last seen_nonce =
    if not (m.audience == audience)
    then some wrong_audience
    else if is_empty m.issuer || (is_empty m.nonce || is_empty m.type)
    then some missing_identity
    else if leb m.generation last
    then some replayed_generation
    else if outside_window m now
    then some expired_or_future
    else if seen seen_nonce m.nonce
    then some replayed_nonce
    else check_signature c m key
