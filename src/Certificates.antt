-- ===== src/Certificates.antt =====
-- internal/identity/identity.go: the root certificate of a cluster, and the leaf certificates that it signs. X509
-- is what the package takes from crypto and encoding/pem; what is drawn at random is an argument,
-- none where reading entropy fails.
pub mod Rotation
use among_clusters.Prelude.{
  ℕ, ◌≡◌, Bool, true, false, not, Option, none, some, List, [], ◌∷◌, ◌++◌, nat_eq, length,
  if◌then◌else◌,
}
use among_clusters.Prelude.Int.{pos, negsuc}
use among_clusters.Text.{Text, codes, ◌==◌}
use among_clusters.Time.{Time, add, seconds}
use among_clusters.Protocol.{hex}
use among_clusters.Result.{Result, Error, ok, err, remote}

-- What the package reads of a parsed certificate; a key that is no Ed25519 key is none.
pub record Certificate : Type 0 where
  pub is_ca : Bool
  pub public_key : Option Text
  pub not_after : Time

-- The fields of a template that differ between the two certificates.
pub record Template : Type 0 where
  pub serial : ℕ
  pub common_name : Text
  pub not_before : Time
  pub not_after : Time
  pub uris : List Text
  pub is_ca : Bool

pub record X509 : Type 0 where
  -- pem.Decode: the type and the bytes of the first block; pem.EncodeToMemory
  pub decode : Text → Option (Text × Text)
  pub encode : Text → Text → Text
  -- x509.ParseCertificate, and x509.CreateCertificate under a parent (none for the template itself)
  pub parse : Text → Option Certificate
  pub create : Template → Option Certificate → Text → Text → Option Text
  -- x509.MarshalPKCS8PrivateKey, and url.Parse followed by String
  pub marshal_key : Text → Option Text
  pub parse_url : Text → Option Text
  -- private.Public(), sha256.Sum256, now.AddDate(n, 0, 0)
  pub public : Text → Text
  pub sha256 : Text → Text
  pub add_years : ℕ → Time → Time

-- The random serial numbers, and the leaf's public and private key.
pub record Entropy : Type 0 where
  pub root_serial : Option ℕ
  pub leaf_serial : Option ℕ
  pub leaf_keys : Option (Text × Text)

-- identity.Material
pub record Material : Type 0 where
  pub private_key : Text
  pub public_key : Text
  pub certificate : Text
  pub certificate_key : Text
  pub bundle : Text
  pub bundle_digest : Text

abbrev pub private_key_size : ℕ
private_key_size = 64

module _ (x : X509) where
  -- "sha256:" + hex.EncodeToString(sum[:])
  unfoldable pub bundle_digest : Text → Text
  bundle_digest bundle = codes "sha256:" ++ hex (x.sha256 bundle)

  unfoldable pub leaf_template : Text → Text → ℕ → Time → Template
  leaf_template spiffe uri serial now = record {
    serial = serial;
    common_name = spiffe;
    not_before = add now (seconds (negsuc 59));
    not_after = add now (seconds (pos 86400));
    uris = uri ∷ [];
    is_ca = false;
  }

  unfoldable pub root_template : Text → ℕ → Time → Template
  root_template spiffe serial now = record {
    serial = serial;
    common_name = spiffe ++ codes " root";
    not_before = add now (seconds (negsuc 59));
    not_after = x.add_years 10 now;
    uris = [];
    is_ca = true;
  }

  module _ (failure : Error) where
    -- The end of issueLeaf, from the certificate's bytes on.
    unfoldable pub leaf_material : Text → Text → Text → Option Text → Text → Result Material
    unfolding bundle_digest
    leaf_material root_key bundle leaf_key none der = err failure
    leaf_material root_key bundle leaf_key (some key_bytes) der = ok (record {
      private_key = root_key;
      public_key = x.public root_key;
      certificate = x.encode (codes "CERTIFICATE") der ++ bundle;
      certificate_key = x.encode (codes "PRIVATE KEY") key_bytes;
      bundle = bundle;
      bundle_digest = bundle_digest bundle;
    })

    -- issueLeaf
    unfoldable pub issue_leaf : Text → Text → Certificate → Text → Time → Entropy → Result Material
    unfolding leaf_template leaf_material
    issue_leaf spiffe root_key root bundle now e = elim (x.parse_url spiffe) [
      | none ↦ err failure
      | some uri ↦ elim e.leaf_serial [
        | none ↦ err failure
        | some serial ↦ elim e.leaf_keys [
          | none ↦ err failure
          | some keys ↦
              elim (x.create (leaf_template spiffe uri serial now) (some root) keys.0 root_key) [
                | none ↦ err failure
                | some der ↦ leaf_material root_key bundle keys.1 (x.marshal_key keys.1) der
              ]
        ]
      ]
    ]

    -- FromPrivateKey
    unfoldable pub from_private_key : Text → Text → Time → Entropy → Result Material
    unfolding root_template issue_leaf
    from_private_key spiffe key now e =
        if not (nat_eq (length key) private_key_size)
        then err (remote (codes "invalid Ed25519 private key"))
        else elim e.root_serial [
          | none ↦ err failure
          | some serial ↦
              elim (x.create (root_template spiffe serial now) none (x.public key) key) [
                | none ↦ err failure
                | some der ↦ elim (x.parse der) [
                  | none ↦ err failure
                  | some root ↦
                      issue_leaf spiffe key root (x.encode (codes "CERTIFICATE") der) now e
                ]
              ]
        ]

    -- Generate, with the private key that is drawn.
    unfoldable pub generate : Text → Time → Option Text → Entropy → Result Material
    unfolding from_private_key
    generate spiffe now none e = err failure
    generate spiffe now (some key) e = from_private_key spiffe key now e

    -- The checks of Rotate on a parsed root.
    unfoldable pub rotate_from : Text → Text → Text → Time → Entropy → Certificate → Result Material
    unfolding issue_leaf
    rotate_from spiffe key bundle now e root =
        if not root.is_ca
        then err (remote (codes "invalid root certificate"))
        else elim root.public_key [
          | none ↦ err (remote (codes "root key does not match trust bundle"))
          | some public ↦
              if public == x.public key
              then issue_leaf spiffe key root bundle now e
              else err (remote (codes "root key does not match trust bundle"))
        ]

    -- Rotate
    unfoldable pub rotate : Text → Text → Text → Time → Entropy → Result Material
    unfolding rotate_from
    rotate spiffe key bundle now e = elim (x.decode bundle) [
      | none ↦ err (remote (codes "invalid trust bundle"))
      | some block ↦
          if not (block.0 == codes "CERTIFICATE")
          then err (remote (codes "invalid trust bundle"))
          else elim (x.parse block.1) [
            | none ↦ err (remote (codes "invalid root certificate"))
            | some root ↦ rotate_from spiffe key bundle now e root
          ]
    ]
