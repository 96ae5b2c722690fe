-- ===== src/Credential.antt =====
-- internal/credential/envelope.go: values sealed for the holder of an X25519 key. The record Suite is
-- what the package takes from crypto and encoding/json; entropy is an argument, none where reading
-- it fails.
use among_clusters.Prelude.{
  ℕ, ◌≡◌, ◌∙◌, Bool, true, not, Option, none, some, nat_eq, length, arith, if◌then◌else◌,
}
use among_clusters.Text.{Text}

pub record Envelope : Type 0 where
  pub ephemeral_key : Text
  pub nonce : Text
  pub ciphertext : Text

pub record Suite (A : Type 0) : Type 0 where
  -- curve.NewPublicKey, curve.NewPrivateKey: is this a key?
  pub is_public : Text → Bool
  pub is_private : Text → Bool
  -- private.PublicKey(), private.ECDH(remote)
  pub public_of : Text → Text
  pub ecdh : Text → Text → Option Text
  -- aes.NewCipher and cipher.NewGCM: is this an AES key?
  pub is_cipher_key : Text → Bool
  -- aead.Seal and aead.Open under the key, with the nonce
  pub seal : Text → Text → Text → Text
  pub unseal : Text → Text → Text → Option Text
  -- base64.RawStdEncoding
  pub base64_encode : Text → Text
  pub base64_decode : Text → Option Text
  -- json.Marshal and json.Unmarshal
  pub marshal : A → Option Text
  pub unmarshal : Text → Option A

-- What the packages document.
pub record IsSound {A : Type 0} (s : Suite A) : Type 0 where
  pub is_public-public_of : (k : Text) → s.is_public (s.public_of k) ≡ true
  pub ecdh_comm : (k l : Text) → s.ecdh k (s.public_of l) ≡ s.ecdh l (s.public_of k)
  pub unseal-seal :
      (key nonce clear : Text) → s.unseal key nonce (s.seal key nonce clear) ≡ some clear
  pub decode-encode : (b : Text) → s.base64_decode (s.base64_encode b) ≡ some b
  pub unmarshal-marshal :
      (a : A) (text : Text) → s.marshal a ≡ some text → s.unmarshal text ≡ some a

-- aead.NonceSize()
abbrev pub nonce_size : ℕ
nonce_size = 12

-- What Decrypt does: it fills the target, returns an error, or panics (Open does, on a nonce of
-- another size).
pub data Decryption (A : Type 0) : Type 0 where
  opened : A → Decryption A
  failed : Decryption A
  panics : Decryption A

module _ {A : Type 0} (s : Suite A) where
  -- The end of Encrypt, from the shared secret on.
  unfoldable pub seal_with : Text → Text → Option Text → A → Option Envelope
  seal_with shared private none value = none
  seal_with shared private (some nonce) value = elim (s.marshal value) [
    | none ↦ none
    | some clear ↦ some (record {
      ephemeral_key = s.base64_encode (s.public_of private);
      nonce = s.base64_encode nonce;
      ciphertext = s.base64_encode (s.seal shared nonce clear);
    })
  ]

  -- Encrypt, with the ephemeral private key and the nonce that it draws.
  unfoldable pub encrypt : Text → Option Text → Option Text → A → Option Envelope
  encrypt remote private nonce value = if not (s.is_public remote) then none else elim private [
    | none ↦ none
    | some key ↦ elim (s.ecdh key remote) [
      | none ↦ none
      | some shared ↦ if s.is_cipher_key shared then seal_with shared key nonce value else none
    ]
  ]

  -- json.Unmarshal(clear, target)
  unfoldable pub read_clear : Option Text → Decryption A
  read_clear none = failed
  read_clear (some clear) = elim (s.unmarshal clear) [ none ↦ failed | some value ↦ opened value ]

  -- The end of Decrypt, from the shared secret on.
  unfoldable pub open_with : Text → Option Text → Option Text → Decryption A
  open_with shared none sealed = failed
  open_with shared (some nonce) none = failed
  open_with shared (some nonce) (some sealed) =
      if nat_eq (length nonce) nonce_size then read_clear (s.unseal shared nonce sealed) else panics

  unfoldable pub decrypt_from : Text → Option Text → Envelope → Decryption A
  decrypt_from private none e = failed
  decrypt_from private (some peer) e =
      if not (s.is_public peer) then failed else elim (s.ecdh private peer) [
        | none ↦ failed
        | some shared ↦
            if s.is_cipher_key shared
            then open_with shared (s.base64_decode e.nonce) (s.base64_decode e.ciphertext)
            else failed
      ]

  -- Decrypt
  unfoldable pub decrypt : Text → Envelope → Decryption A
  decrypt private e =
      if not (s.is_private private)
      then failed
      else decrypt_from private (s.base64_decode e.ephemeral_key) e

  -- What Encrypt made the envelope from.
  encrypt_parts :
      (remote key nonce : Text) (value : A) (e : Envelope)
      → encrypt remote (some key) (some nonce) value ≡ some e
      → (shared clear : Text) × (s.ecdh key remote ≡ some shared)
        × (s.is_cipher_key shared ≡ true)
        × (s.marshal value ≡ some clear)
        × (e ≡ record {
          ephemeral_key = s.base64_encode (s.public_of key);
          nonce = s.base64_encode nonce;
          ciphertext = s.base64_encode (s.seal shared nonce clear);
        })
  unfolding encrypt seal_with
  encrypt_parts remote key nonce value e h = ground arith

  -- With a sound suite and a nonce of twelve bytes, what is encrypted for the public part of a private
  -- key is decrypted to the same value under that private key.
  pub decrypt-encrypt :
      (private key nonce : Text) (value : A) (e : Envelope)
      → IsSound s
      → s.is_private private ≡ true
      → length nonce ≡ nonce_size
      → encrypt (s.public_of private) (some key) (some nonce) value ≡ some e
      → decrypt private e ≡ opened value
  unfolding decrypt decrypt_from open_with read_clear
  decrypt-encrypt private key nonce value e sound valid size h =
      let (shared, clear, agreed, fits, encodes, made) =
        encrypt_parts (s.public_of private) key nonce value e h in
      rw made (
        ground (
          arith,
          valid,
          size,
          fits,
          sound.decode-encode (s.public_of key),
          sound.decode-encode nonce,
          sound.decode-encode (s.seal shared nonce clear),
          sound.is_public-public_of key,
          sound.ecdh_comm private key ∙ agreed,
          sound.unseal-seal shared nonce clear,
          sound.unmarshal-marshal value clear encodes,
        ))
