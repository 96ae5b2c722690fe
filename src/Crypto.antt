-- ===== src/Crypto.antt =====
-- The parts of Go's crypto and encoding packages that the programs call, as a parameter: Ed25519,
-- SHA-256, base64 (RawStdEncoding and RawURLEncoding) and the JSON encoder and decoder.
use among_clusters.Prelude.{◌≡◌, true, Bool, Option, some}
use among_clusters.Text.{Text}
use among_clusters.Model.{
  ControlMessage, IdentityRegistration, BundleConfirmation, ServiceSnapshot, GrantFulfillment,
  LinkObservation,
}

pub record Crypto : Type 0 where
  -- ed25519.Verify(key, body, signature), ed25519.Sign(key, body), key.Public()
  pub verify : Text → Text → Text → Bool
  pub sign : Text → Text → Text
  pub public : Text → Text
  pub sha256 : Text → Text
  -- base64.RawStdEncoding
  pub base64_encode : Text → Text
  pub base64_decode : Text → Option Text
  -- json.Marshal; none is an error
  pub marshal_message : ControlMessage → Option Text
  pub marshal_identity : IdentityRegistration → Option Text
  -- json.Unmarshal; none is an error
  pub unmarshal_confirmation : Text → Option BundleConfirmation
  pub unmarshal_observation : Text → Option LinkObservation
  pub unmarshal_snapshot : Text → Option ServiceSnapshot
  pub unmarshal_fulfillment : Text → Option GrantFulfillment

-- What the packages document: decoding undoes encoding, and a signature made with a private key is
-- accepted under its public key.
pub record IsSound (c : Crypto) : Type 0 where
  pub decode-encode : (b : Text) → c.base64_decode (c.base64_encode b) ≡ some b
  pub verify-sign : (k b : Text) → c.verify (c.public k) b (c.sign k b) ≡ true
