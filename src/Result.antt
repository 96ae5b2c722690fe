-- ===== src/Result.antt =====
-- What a method with an error result returns: the value, or the error. Callers look at an error's
-- text only, so an error is a name for its text (`message`); `remote` is an error that comes from
-- elsewhere, with its text.
use among_clusters.Text.{Text, codes}

pub data Error : Type 0 where
  claim_exists invalid_claim claim_used claim_expired : Error
  invitation_exists invalid_invitation tenant_mismatch cluster_mismatch : Error
  invitation_used invitation_expired capability_not_invited : Error
  identity_exists identity_not_found replayed_generation replayed_nonce : Error
  invalid_confirmation invalid_observation : Error
  remote : Text → Error

-- err.Error()
unfoldable pub message : Error → Text
message claim_exists = codes "claim exists"
message invalid_claim = codes "invalid claim"
message claim_used = codes "claim already used"
message claim_expired = codes "claim expired"
message invitation_exists = codes "invitation exists"
message invalid_invitation = codes "invalid invitation"
message tenant_mismatch = codes "tenant mismatch"
message cluster_mismatch = codes "cluster mismatch"
message invitation_used = codes "invitation already used"
message invitation_expired = codes "invitation expired"
message capability_not_invited = codes "capability not invited"
message identity_exists = codes "identity exists"
message identity_not_found = codes "identity not found"
message replayed_generation = codes "replayed generation"
message replayed_nonce = codes "replayed nonce"
message invalid_confirmation = codes "invalid bundle confirmation"
message invalid_observation = codes "invalid link observation"
message (remote text) = text

pub data Result {ℓ} (A : Type ℓ) : Type ℓ where
  ok : A → Result A
  err : Error → Result A
