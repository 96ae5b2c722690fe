-- ===== src/Protocol/Verification.antt =====
-- Verify of internal/protocol/control.go: what it takes for a control message to verify, and that
-- a message signed by Sign does.
use among_clusters.Prelude.{
  ℕ, ◌<◌, ◌≡◌, ◌≢◌, Bool, true, false, Option, none, some, [], ◌↔◌, arith, subst, sym,
}
use among_clusters.Prelude.Int.{pos, ◌<ℤ◌, ◌≤ℤ◌, ◌+ℤ◌}
use among_clusters.Text.{Text}
use among_clusters.Text.Equality.{eq_iff, is_empty_iff}
use among_clusters.Time.{Time, before, add, seconds}
use among_clusters.Model.{ControlMessage}
use among_clusters.Crypto.{Crypto, IsSound}
use among_clusters.Protocol.{canonical, sign, verify, check_signature, outside_window, seen}

abbrev pub two_minutes : ℕ
two_minutes = 120000000000

-- The envelope is issued before it expires, was issued at most two minutes in the future, and has
-- not expired.
pub record InWindow (m : ControlMessage) (now : Time) : Type 0 where
  pub ordered : m.issued_at <ℤ m.expires_at
  pub started : m.issued_at ≤ℤ now +ℤ pos two_minutes
  pub live : now <ℤ m.expires_at

-- The envelope is addressed, named, new and within its time.
pub record IsCurrent (m : ControlMessage) (audience : Text) (now : Time) (last : ℕ)
    (seen_nonce : Option (Text → Bool)) : Type 0 where
  pub addressed : m.audience ≡ audience
  pub has_issuer : m.issuer ≢ []
  pub has_nonce : m.nonce ≢ []
  pub has_type : m.type ≢ []
  pub newer : last < m.generation
  pub window : InWindow m now
  pub fresh : seen seen_nonce m.nonce ≡ false

-- The signature decodes and is one of the canonical body under the key.
abbrev pub IsSigned : Crypto → ControlMessage → Text → Type 0
IsSigned c m key =
    (body signature : Text) × (canonical c m ≡ some body)
    × (c.base64_decode m.signature ≡ some signature)
    × (c.verify key body signature ≡ true)

outside_window_iff :
    (m : ControlMessage) (now : Time) → (outside_window m now ≡ false) ↔ InWindow m now
unfolding outside_window before add seconds ◌+ℤ◌
outside_window_iff m now = ((λ h. ground arith), (λ h. ground arith))

module _ (c : Crypto) (m : ControlMessage) (key : Text) where
  signature_of : check_signature c m key ≡ none → IsSigned c m key
  unfolding check_signature
  signature_of h = ground arith

  of_signature : IsSigned c m key → check_signature c m key ≡ none
  unfolding check_signature
  of_signature (b, s, e, d, v) = ground arith

module _ (c : Crypto) (m : ControlMessage) (key audience : Text) (now : Time) (last : ℕ)
    (seen_nonce : Option (Text → Bool)) where
  verify-of_current :
      IsCurrent m audience now last seen_nonce
      → IsSigned c m key
      → verify c m key audience now last seen_nonce ≡ none
  unfolding verify
  verify-of_current h s = ground (
    arith,
    eq_iff m.audience audience,
    is_empty_iff m.issuer,
    is_empty_iff m.nonce,
    is_empty_iff m.type,
    (outside_window_iff m now).1 h.window,
    of_signature c m key s,
  )

  IsCurrent-of_verify :
      verify c m key audience now last seen_nonce ≡ none
      → IsCurrent m audience now last seen_nonce × (check_signature c m key ≡ none)
  unfolding verify
  IsCurrent-of_verify h = ground (
    arith,
    eq_iff m.audience audience,
    is_empty_iff m.issuer,
    is_empty_iff m.nonce,
    is_empty_iff m.type,
    (outside_window_iff m now).0,
  )

  -- A message verifies exactly if its envelope is addressed to the audience, names an issuer, a nonce
  -- and a type, has a generation above the last one, is within its time window, has an unseen
  -- nonce, and carries a signature of its canonical body under the key.
  pub verify_iff :
      (verify c m key audience now last seen_nonce ≡ none)
      ↔ (IsCurrent m audience now last seen_nonce × IsSigned c m key)
  verify_iff = (
    (λ h. let both = IsCurrent-of_verify h in (both.0, signature_of c m key both.1)),
    (λ h. verify-of_current h.0 h.1),
  )

-- What Sign returns, if the encoder does not fail.
pub sign_result :
    (c : Crypto) (m m' : ControlMessage) (private : Text)
    → sign c m private ≡ some m'
    → (body : Text) × (canonical c m ≡ some body)
      × (m' ≡ record m { signature = c.base64_encode (c.sign private body) })
unfolding sign
sign_result c m m' private h = ground arith

IsSigned-sign :
    (c : Crypto) (m : ControlMessage) (private body : Text)
    → IsSound c
    → canonical c m ≡ some body
    → IsSigned c (record m { signature = c.base64_encode (c.sign private body) }) (c.public private)
unfolding canonical
IsSigned-sign c m private body sound e =
    (body, c.sign private body, e, sound.decode-encode _, sound.verify-sign private body)

-- With sound cryptography, a message whose envelope is current and that Sign signs with a private
-- key verifies under the public key.
pub verify-sign :
    (c : Crypto) (m m' : ControlMessage) (private audience : Text) (now : Time) (last : ℕ)
    (seen_nonce : Option (Text → Bool))
    → IsSound c
    → sign c m private ≡ some m'
    → IsCurrent m audience now last seen_nonce
    → verify c m' (c.public private) audience now last seen_nonce ≡ none
verify-sign c m m' private audience now last seen_nonce sound signed current =
    let (body, encodes, result) = sign_result c m m' private signed in
    subst (λ x. verify c x (c.public private) audience now last seen_nonce ≡ none) (sym result)
      ((verify_iff c _ (c.public private) audience now last seen_nonce).1 (
        record {
          addressed = current.addressed;
          has_issuer = current.has_issuer;
          has_nonce = current.has_nonce;
          has_type = current.has_type;
          newer = current.newer;
          window = record {
            ordered = current.window.ordered;
            started = current.window.started;
            live = current.window.live;
          };
          fresh = current.fresh;
        },
        IsSigned-sign c m private body sound encodes,
      ))
