-- ===== src/Certificates/Rotation.antt =====
-- Rotation: who can make a new leaf certificate, and what stays.
use among_clusters.Prelude.{
  ℕ, [], ◌∷◌, ◌++◌, ◌≡◌, refl, sym, ap, ◌∙◌, true, false, Option, none, some, arith, Option-cases,
  inl, inr,
}
use among_clusters.Text.{Text, codes}
use among_clusters.Text.Equality.{eq_iff}
use among_clusters.Prelude.Int.{pos, negsuc, ◌+ℤ◌, wrap64}
use among_clusters.Time.{Time, add, seconds}
use among_clusters.Result.{Error, ok}
use among_clusters.Certificates.{
  Certificate, X509, Entropy, Material, bundle_digest, leaf_template, leaf_material, issue_leaf,
  rotate_from, rotate,
}

-- The material is that of the key and the bundle.
pub record IsMaterialOf (x : X509) (key bundle : Text) (m : Material) : Type 0 where
  pub same_key : m.private_key ≡ key
  pub same_public : m.public_key ≡ x.public key
  pub same_bundle : m.bundle ≡ bundle
  pub digest : m.bundle_digest ≡ bundle_digest x bundle

-- The bundle holds a root certificate of the key.
pub record IsRootOf (x : X509) (key bundle : Text) : Type 0 where
  pub bytes : Text
  pub root : Certificate
  pub decodes : x.decode bundle ≡ some (codes "CERTIFICATE", bytes)
  pub parses : x.parse bytes ≡ some root
  pub authority : root.is_ca ≡ true
  pub own_key : root.public_key ≡ some (x.public key)

-- The certificate is a new leaf, signed by the root with the key: no authority, for the SPIFFE ID, from
-- a minute ago for a day; it is followed by the bundle, and its key is the one that was drawn.
pub record IsLeafOf (x : X509) (root : Certificate) (spiffe key bundle : Text) (now : Time)
    (e : Entropy) (certificate certificate_key : Text) : Type 0 where
  pub uri : Text
  pub serial : ℕ
  pub leaf_public : Text
  pub leaf_private : Text
  pub der : Text
  pub key_bytes : Text
  pub is_url : x.parse_url spiffe ≡ some uri
  pub serial_drawn : e.leaf_serial ≡ some serial
  pub keys_drawn : e.leaf_keys ≡ some (leaf_public, leaf_private)
  pub created :
      x.create
        (record {
          serial = serial;
          common_name = spiffe;
          not_before = now +ℤ negsuc 59999999999;
          not_after = now +ℤ pos 86400000000000;
          uris = uri ∷ [];
          is_ca = false;
        })
        (some root)
        leaf_public
        key
      ≡ some der
  pub key_encoded : x.marshal_key leaf_private ≡ some key_bytes
  pub chain : certificate ≡ x.encode (codes "CERTIFICATE") der ++ bundle
  pub private : certificate_key ≡ x.encode (codes "PRIVATE KEY") key_bytes

module _ (x : X509) (failure : Error) (spiffe key bundle : Text) (now : Time) (e : Entropy)
    (m : Material) where
  leaf_material-IsMaterialOf :
      (leaf : Text) (bytes : Option Text) (der : Text)
      → leaf_material x failure key bundle leaf bytes der ≡ ok m
      → IsMaterialOf x key bundle m
        × ((key_bytes : Text) × (bytes ≡ some key_bytes)
            × (m.certificate ≡ x.encode (codes "CERTIFICATE") der ++ bundle)
            × (m.certificate_key ≡ x.encode (codes "PRIVATE KEY") key_bytes))
  unfolding leaf_material
  leaf_material-IsMaterialOf leaf none der h = absurd (ground (arith, h))
  leaf_material-IsMaterialOf leaf (some b) der h = (
    record {
      same_key = ground (arith, h);
      same_public = ground (arith, h);
      same_bundle = ground (arith, h);
      digest = ground (arith, h);
    },
    (b, refl, ground (arith, h), ground (arith, h)),
  )

  leaf_template_lem :
      (uri : Text) (serial : ℕ)
      → leaf_template x spiffe uri serial now ≡ record {
        serial = serial;
        common_name = spiffe;
        not_before = now +ℤ negsuc 59999999999;
        not_after = now +ℤ pos 86400000000000;
        uris = uri ∷ [];
        is_ca = false;
      }
  unfolding leaf_template add seconds wrap64
  leaf_template_lem uri serial = refl

  issue_leaf-IsLeafOf :
      (root : Certificate) (u : Option Text) (n : Option ℕ) (k : Option (Text × Text))
      → x.parse_url spiffe ≡ u
      → e.leaf_serial ≡ n
      → e.leaf_keys ≡ k
      → issue_leaf x failure spiffe key root bundle now e ≡ ok m
      → IsMaterialOf x key bundle m
        × IsLeafOf x root spiffe key bundle now e m.certificate m.certificate_key
  unfolding issue_leaf
  issue_leaf-IsLeafOf root none n k a b c h = absurd (ground (arith, a, h))
  issue_leaf-IsLeafOf root (some u) none k a b c h = absurd (ground (arith, a, b, h))
  issue_leaf-IsLeafOf root (some u) (some n) none a b c h = absurd (ground (arith, a, b, c, h))
  issue_leaf-IsLeafOf root (some u) (some n) (some (public, private)) a b c h =
      let made = x.create (leaf_template x spiffe u n now) (some root) public key in
      elim (Option-cases made) [
        | inl none_made ↦ absurd (ground (arith, a, b, c, h, none_made))
        | inr (der, some_made) ↦
            let (material, (key_bytes, encoded, chain, leaf_key)) =
              leaf_material-IsMaterialOf private (x.marshal_key private) der
                (ground (arith, a, b, c, h, some_made)) in
            (
              material,
              record {
                uri = u;
                serial = n;
                leaf_public = public;
                leaf_private = private;
                der = der;
                key_bytes = key_bytes;
                is_url = a;
                serial_drawn = b;
                keys_drawn = c;
                created =
                    ap (λ template. x.create template (some root) public key)
                      (sym (leaf_template_lem u n))
                    ∙ some_made;
                key_encoded = encoded;
                chain = chain;
                private = leaf_key;
              },
            )
      ]

  rotate_from_facts :
      (root : Certificate) (k : Option Text)
      → root.public_key ≡ k
      → rotate_from x failure spiffe key bundle now e root ≡ ok m
      → (root.is_ca ≡ true)
        × (k ≡ some (x.public key))
        × IsMaterialOf x key bundle m
        × IsLeafOf x root spiffe key bundle now e m.certificate m.certificate_key
  unfolding rotate_from
  rotate_from_facts root none a h = absurd (ground (arith, a, h))
  rotate_from_facts root (some k) a h =
      let own = eq_iff k (x.public key) in
      let (made, leaf) =
        issue_leaf-IsLeafOf root (x.parse_url spiffe) e.leaf_serial e.leaf_keys refl refl refl
          (ground (arith, a, h)) in
      (ground (arith, a, h), ground (arith, a, h, own), made, leaf)

  -- Rotate succeeds only with the private key of the bundle's root, keeps the bundle and signs a new leaf
  -- with it.
  pub rotate-IsRootOf :
      (block : Option (Text × Text))
      → x.decode bundle ≡ block
      → rotate x failure spiffe key bundle now e ≡ ok m
      → (root : IsRootOf x key bundle) × IsMaterialOf x key bundle m
        × IsLeafOf x root.root spiffe key bundle now e m.certificate m.certificate_key
  unfolding rotate
  rotate-IsRootOf none a h = absurd (ground (arith, a, h))
  rotate-IsRootOf (some (type, bytes)) a h = elim (Option-cases (x.parse bytes)) [
    | inl b ↦ absurd (ground (arith, a, b, h))
    | inr (root, b) ↦
        let certificate : type ≡ codes "CERTIFICATE" =
          ground (arith, a, h, eq_iff type (codes "CERTIFICATE")) in
        let passed : rotate_from x failure spiffe key bundle now e root ≡ ok m =
          ground (arith, a, b, h) in
        let (authority, own, made, leaf) = rotate_from_facts root root.public_key refl passed in
        (
          record {
            bytes = bytes;
            root = root;
            decodes = a ∙ ap (λ n. some (n, bytes)) certificate;
            parses = b;
            authority = authority;
            own_key = own;
          },
          made,
          leaf,
        )
  ]
