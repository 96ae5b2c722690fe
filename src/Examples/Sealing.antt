-- ===== src/Examples/Sealing.antt =====
-- The theorems on envelopes and on signatures at concrete values.
use among_clusters.Prelude.{◌≡◌, ◌↔◌, refl, sym, true, some, none, [], arith}
use among_clusters.Prelude.Int.{pos, ◌≤ℤ◌, ◌+ℤ◌}
use among_clusters.Text.{Text, codes}
use among_clusters.Credential
use among_clusters.Credential.{Suite, Envelope, opened, encrypt, decrypt, decrypt-encrypt}
use among_clusters.Signing.{sign, verify, canonical, accepted_iff, accepted-sign}
use among_clusters.Examples.Fixtures.{toy, toy-IsSound, noon}

-- One shared secret, and nothing is hidden.
abbrev suite : Suite Text
suite = record {
  is_public = λ k. true;
  is_private = λ k. true;
  public_of = λ k. k;
  ecdh = λ k l. some [];
  is_cipher_key = λ k. true;
  seal = λ k n c. c;
  unseal = λ k n c. some c;
  base64_encode = λ b. b;
  base64_decode = λ t. some t;
  marshal = λ a. some a;
  unmarshal = λ t. some t;
}

suite-IsSound : Credential.IsSound suite
suite-IsSound = record {
  is_public-public_of = λ k. refl;
  ecdh_comm = λ k l. refl;
  unseal-seal = λ k n c. refl;
  decode-encode = λ b. refl;
  unmarshal-marshal = λ a t h. sym h;
}

abbrev envelope : Envelope
envelope = record {
  ephemeral_key = codes "other";
  nonce = codes "twelve bytes";
  ciphertext = codes "token";
}

encrypts :
    encrypt suite
      (codes "mine")
      (some (codes "other"))
      (some (codes "twelve bytes"))
      (codes "token")
    ≡ some envelope
unfolding encrypt Credential.seal_with
encrypts = refl

decrypt-encrypt_example : decrypt suite (codes "mine") envelope ≡ opened (codes "token")
decrypt-encrypt_example =
    decrypt-encrypt suite (codes "mine") (codes "other") (codes "twelve bytes") (codes "token")
      envelope suite-IsSound refl refl encrypts

accepted_iff_example :
    (verify toy (λ t. []) (codes "key") noon 7 (codes "body") (codes "sig") noon (pos 120000000000)
      ≡ none)
    ↔ ((noon ≤ℤ noon +ℤ pos 120000000000)
        × (noon ≤ℤ noon +ℤ pos 120000000000)
        × ((sig : Text) × (toy.base64_decode (codes "sig") ≡ some sig)
            × (toy.verify (codes "key") (canonical toy (λ t. []) noon 7 (codes "body")) sig
                ≡ true)))
accepted_iff_example =
    accepted_iff toy (λ t. []) (codes "key") noon 7 (codes "body") (codes "sig") noon 120000000000
      (omega arith)

accepted-sign_example :
    verify toy
      (λ t. [])
      (codes "key")
      noon
      7
      (codes "body")
      (sign toy (λ t. []) (codes "key") noon 7 (codes "body"))
      noon
      (pos 120000000000)
    ≡ none
unfolding ◌+ℤ◌
accepted-sign_example =
    accepted-sign toy (λ t. []) (codes "key") noon 7 (codes "body") noon 120000000000 toy-IsSound
      (omega arith) (omega arith) (omega arith)
