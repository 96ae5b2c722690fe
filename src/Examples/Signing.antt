-- ===== src/Examples/Signing.antt =====
-- The protocol's theorems at concrete messages.
use among_clusters.Prelude.{◌≡◌, ◌↔◌, refl, some, none, arith}
use among_clusters.Prelude.Int.{◌+ℤ◌}
use among_clusters.Text.{codes}
use among_clusters.Protocol.{sign, verify, validate_identity, seen}
use among_clusters.Protocol.Verification.{IsCurrent, IsSigned, verify_iff, verify-sign}
use among_clusters.Protocol.Identity.{IsRegistrable, validate_identity_iff}
use among_clusters.Examples.Fixtures.{toy, toy-IsSound, noon, alpha, heartbeat, key_text, hub_code}

heartbeat-IsCurrent : IsCurrent heartbeat (codes "hub") noon 0 none
unfolding seen ◌+ℤ◌
heartbeat-IsCurrent = record {
  addressed = refl;
  has_issuer = λ e. cc e;
  has_nonce = λ e. cc e;
  has_type = λ e. cc e;
  newer = omega arith;
  window = record { ordered = omega arith; started = omega arith; live = omega arith };
  fresh = refl;
}

heartbeat_signed : sign toy heartbeat key_text ≡ some heartbeat
unfolding sign
heartbeat_signed = refl

verify-sign_example : verify toy heartbeat key_text (codes "hub") noon 0 none ≡ none
verify-sign_example =
    verify-sign toy heartbeat heartbeat key_text (codes "hub") noon 0 none toy-IsSound
      heartbeat_signed heartbeat-IsCurrent

verify_iff_example :
    (verify toy heartbeat key_text (codes "hub") noon 0 none ≡ none)
    ↔ (IsCurrent heartbeat (codes "hub") noon 0 none × IsSigned toy heartbeat key_text)
verify_iff_example = verify_iff toy heartbeat key_text (codes "hub") noon 0 none

validate_identity_iff_example : (validate_identity toy alpha ≡ none) ↔ IsRegistrable toy alpha
validate_identity_iff_example = validate_identity_iff toy alpha

-- The registration passes the checks.
alpha_valid : validate_identity toy alpha ≡ none
unfolding hub_code
alpha_valid = refl
