-- ===== src/Signing.antt =====
-- internal/signing/signing.go: signatures of a body with a timestamp and a sequence number. `layout`
-- is time.Format with the layout RFC3339Nano, on the instant in UTC.
use among_clusters.Prelude.{
  ℕ, ◌/◌, ◌%◌, ◌^◌, ◌<◌, ◌≡◌, ◌↔◌, Bool, true, false, ◌||◌, Option, none, some, [], ◌∷◌, ◌++◌,
  arith, if◌then◌else◌,
}
use among_clusters.Prelude.Int.{pos, ◌-ℤ◌, ◌+ℤ◌, ◌≤ℤ◌, wrap64}
use among_clusters.Text.{Text}
use among_clusters.Time.{Time, Duration, before, add}
use among_clusters.Crypto.{Crypto, IsSound}

-- The eight bytes of a uint64, the highest first.
unfoldable pub big_endian : ℕ → Text
big_endian n =
    n / 2 ^ 56 % 256
    ∷ n / 2 ^ 48 % 256
    ∷ n / 2 ^ 40 % 256
    ∷ n / 2 ^ 32 % 256
    ∷ n / 2 ^ 24 % 256
    ∷ n / 2 ^ 16 % 256
    ∷ n / 2 ^ 8 % 256
    ∷ n % 256
    ∷ []

-- The errors of Verify, in the order of its checks.
pub data VerifyError : Type 0 where
  clock_skew decode_failed invalid_signature : VerifyError

module _ (c : Crypto) (layout : Time → Text) where
  -- canonical
  unfoldable pub canonical : Time → ℕ → Text → Text
  canonical timestamp sequence body = c.sha256 (layout timestamp ++ (big_endian sequence ++ body))

  -- Sign
  unfoldable pub sign : Text → Time → ℕ → Text → Text
  sign key timestamp sequence body =
      c.base64_encode (c.sign key (canonical timestamp sequence body))

  -- The first test of Verify. The duration -maxSkew is an int64.
  unfoldable pub skewed : Time → Time → Duration → Bool
  skewed timestamp now max_skew =
      before timestamp (add now (wrap64 (pos 0 -ℤ max_skew))) || before (add now max_skew) timestamp

  -- Verify; none is a nil error.
  unfoldable pub verify : Text → Time → ℕ → Text → Text → Time → Duration → Option VerifyError
  verify key timestamp sequence body signature now max_skew =
      if skewed timestamp now max_skew then some clock_skew else elim (c.base64_decode signature) [
        | none ↦ some decode_failed
        | some sig ↦
            if c.verify key (canonical timestamp sequence body) sig
            then none
            else some invalid_signature
      ]

  skewed_iff :
      (timestamp now : Time) (k : ℕ)
      → k < 2 ^ 63
      → (skewed timestamp now (pos k) ≡ false)
        ↔ ((now ≤ℤ timestamp +ℤ pos k) × (timestamp ≤ℤ now +ℤ pos k))
  unfolding skewed before add wrap64 ◌-ℤ◌ ◌+ℤ◌
  skewed_iff timestamp now k h = ((λ g. ground arith), (λ g. ground arith))

  -- With an accepted skew that a duration can hold, a signature is accepted exactly if the timestamp
  -- differs from the present by at most that skew, and the signature decodes to one of the digest of
  -- timestamp, sequence number and body under the key.
  pub accepted_iff :
      (key : Text) (timestamp : Time) (sequence : ℕ) (body signature : Text) (now : Time) (k : ℕ)
      → k < 2 ^ 63
      → (verify key timestamp sequence body signature now (pos k) ≡ none) ↔ (
          (now ≤ℤ timestamp +ℤ pos k)
          × (timestamp ≤ℤ now +ℤ pos k)
          × ((sig : Text) × (c.base64_decode signature ≡ some sig)
              × (c.verify key (canonical timestamp sequence body) sig ≡ true)))
  unfolding verify
  accepted_iff key timestamp sequence body signature now k h =
      let window = skewed_iff timestamp now k h in ((λ g. ground (arith, window)), from)
    where
      from :
          ((now ≤ℤ timestamp +ℤ pos k)
            × (timestamp ≤ℤ now +ℤ pos k)
            × ((sig : Text) × (c.base64_decode signature ≡ some sig)
                × (c.verify key (canonical timestamp sequence body) sig ≡ true)))
          → verify key timestamp sequence body signature now (pos k) ≡ none
      from (a, b, (sig, d, v)) = ground (arith, (skewed_iff timestamp now k h).1 (a, b), d, v)

  -- With sound cryptography, a signature that Sign makes is accepted under the public key for as long
  -- as the timestamp is within the skew.
  pub accepted-sign :
      (private : Text) (timestamp : Time) (sequence : ℕ) (body : Text) (now : Time) (k : ℕ)
      → IsSound c
      → k < 2 ^ 63
      → now ≤ℤ timestamp +ℤ pos k
      → timestamp ≤ℤ now +ℤ pos k
      → verify
          (c.public private)
          timestamp
          sequence
          body
          (sign private timestamp sequence body)
          now
          (pos k)
        ≡ none
  unfolding sign
  accepted-sign private timestamp sequence body now k sound h a b =
      (accepted_iff (c.public private) timestamp sequence body
          (sign private timestamp sequence body) now k h).1
        (
          a,
          b,
          (
            c.sign private (canonical timestamp sequence body),
            sound.decode-encode _,
            sound.verify-sign private (canonical timestamp sequence body),
          ),
        )
