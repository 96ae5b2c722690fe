-- ===== src/Agent/Identity/Refresh.antt =====
-- What a refresh of the identity's Secret keeps while the root certificate lasts.
use among_clusters.Prelude.{
  ◌≡◌, ◌≢◌, ◌⊎◌, ◌++◌, [], sym, subst, Option-cases, refl, ap, ◌∙◌, inl, inr, false, ◌||◌, Option,
  none, some, arith, Bool-cases,
}
use among_clusters.Text.{Text, codes, is_empty}
use among_clusters.Text.Equality.{is_empty_iff}
use among_clusters.Prelude.Int.{pos, ◌+ℤ◌, ◌≤ℤ◌, wrap64}
use among_clusters.Time.{Time, before_iff, add, seconds}
use among_clusters.Result.{Result, Error, ok, err}
use among_clusters.Protocol.{spiffe_id_of}
use among_clusters.Certificates.{X509, Certificate, Entropy, Material, bundle_digest, rotate}
use among_clusters.Certificates.Rotation.{IsRootOf, IsLeafOf, rotate-IsRootOf}
use among_clusters.Agent.{Agent, spiffe_id}
use among_clusters.Agent.Identity.{
  IdentitySecret, certificate_expires_before, needs_root, needs_leaf, with_material, new_material,
  update_secret, refresh_tls_secret,
}

-- The certificate is there and is valid until the deadline at least.
pub record Lasts (x : X509) (value : Text) (deadline : Time) : Type 0 where
  pub block : Text × Text
  pub certificate : Certificate
  pub present : value ≢ []
  pub decodes : x.decode value ≡ some block
  pub parses : x.parse block.1 ≡ some certificate
  pub valid : deadline ≤ℤ certificate.not_after

-- The Secret needs no new leaf: its certificate lasts for two hours, and it has the key and the digest.
pub record IsFresh (x : X509) (s : IdentitySecret) (now : Time) : Type 0 where
  pub certificate : Lasts x s.certificate (now +ℤ pos 7200000000000)
  pub has_key : s.certificate_key ≢ []
  pub has_digest : s.bundle_digest ≢ []

module _ (x : X509) (value : Text) (deadline : Time) where
  not_expired :
      Lasts x value deadline
      → (is_empty value || certificate_expires_before x value deadline) ≡ false
  unfolding certificate_expires_before
  not_expired l =
      let empty = is_empty_iff value in
      let early = before_iff l.certificate.not_after deadline in
      let shown = l.present in
      let decoded = l.decodes in
      let parsed = l.parses in
      let valid = l.valid in ground (arith, empty, early, shown, decoded, parsed, valid)

  lasting :
      (block : Option (Text × Text))
      → x.decode value ≡ block
      → (is_empty value || certificate_expires_before x value deadline) ≡ false
      → Lasts x value deadline
  unfolding certificate_expires_before
  lasting none e h = absurd (ground (arith, e, h))
  lasting (some block) e h = elim (Option-cases (x.parse block.1)) [
    | inl g ↦ absurd (ground (arith, e, g, h))
    | inr (certificate, g) ↦
        let empty = is_empty_iff value in
        let early = before_iff certificate.not_after deadline in
        record {
          block = block;
          certificate = certificate;
          present = λ i. ground (arith, e, g, h, empty, i);
          decodes = e;
          parses = g;
          valid = ground (arith, e, g, h, early);
        }
  ]

deadline_lem : (now : Time) → add now (seconds (pos 7200)) ≡ now +ℤ pos 7200000000000
unfolding add seconds wrap64
deadline_lem now = refl

module _ (x : X509) (failure : Error) (a : Agent) (updates : Option Error) (s t : IdentitySecret)
    (now : Time) (e : Entropy) where
  -- The leaf was renewed under the root that was there, by the holder of its key.
  pub record IsRotated : Type 0 where
    pub root : IsRootOf x a.key s.bundle
    pub leaf :
        IsLeafOf x root.root
          (codes "spiffe://" ++ (a.trust_domain ++ (codes "/cluster/" ++ a.cluster_id)))
          a.key
          s.bundle
          now
          e
          t.certificate
          t.certificate_key
    pub same_bundle : t.bundle ≡ s.bundle
    pub digest : t.bundle_digest ≡ bundle_digest x s.bundle
    pub same_key : t.private_key ≡ s.private_key
    pub public_key : t.public_key ≡ x.public a.key

  updated_facts :
      (r : Result Material) (o : Option Error)
      → update_secret x o s r ≡ (ok tt, t)
      → (m : Material) × (r ≡ ok m) × (t ≡ with_material x m s)
  unfolding update_secret
  updated_facts (ok m) none h = (m, refl, ground (arith, h))
  updated_facts (ok m) (some f) h = absurd (ground (arith, h))
  updated_facts (err f) o h = absurd (ground (arith, h))

  renewed :
      (root : Certificate) (m : Material)
      → t ≡ with_material x m s
      → IsLeafOf x root (spiffe_id a) a.key s.bundle now e m.certificate m.certificate_key
      → IsLeafOf x root
          (codes "spiffe://" ++ (a.trust_domain ++ (codes "/cluster/" ++ a.cluster_id)))
          a.key
          s.bundle
          now
          e
          t.certificate
          t.certificate_key
  unfolding with_material spiffe_id spiffe_id_of
  renewed root m result leaf =
      subst
        (λ (u : IdentitySecret).
          IsLeafOf x root
            (codes "spiffe://" ++ (a.trust_domain ++ (codes "/cluster/" ++ a.cluster_id))) a.key
            s.bundle now e u.certificate u.certificate_key)
        (sym result) leaf

  root_kept : Lasts x s.bundle (x.add_years 1 now) → needs_root x s now ≡ false
  unfolding needs_root
  root_kept l = not_expired x s.bundle (x.add_years 1 now) l

  unneeded_facts : (needs_leaf x s now || is_empty s.bundle_digest) ≡ false → IsFresh x s now
  unfolding needs_leaf
  unneeded_facts h =
      let no_key = is_empty_iff s.certificate_key in
      let no_digest = is_empty_iff s.bundle_digest in
      record {
        certificate =
            lasting x s.certificate (now +ℤ pos 7200000000000) (x.decode s.certificate) refl (
              subst
                (λ d.
                  (is_empty s.certificate || certificate_expires_before x s.certificate d) ≡ false)
                (deadline_lem now) (ground (arith, h)));
        has_key = λ i. ground (arith, h, no_key, i);
        has_digest = λ i. ground (arith, h, no_digest, i);
      }

  -- While the root certificate in the Secret lasts for a year or more, a refresh that succeeds does one of
  -- two things. It leaves the Secret as it is, which then has a certificate that lasts for two hours
  -- or more, its key and the bundle's digest. Or it renews the leaf only: the bundle is a root
  -- certificate of the agent's key, and stays as it was with the private key; the certificate is
  -- a new one for the agent's SPIFFE ID, no authority and valid for a day, signed by this root with
  -- the agent's key and followed by the bundle; its key is the one that was drawn; and the digest is
  -- that of the bundle.
  pub refresh_tls_secret-IsRotated :
      Lasts x s.bundle (x.add_years 1 now)
      → refresh_tls_secret x failure a updates s now e ≡ (ok tt, t)
      → ((t ≡ s) × IsFresh x s now) ⊎ IsRotated
  unfolding refresh_tls_secret new_material with_material
  refresh_tls_secret-IsRotated root_lasts h =
      let lasts : needs_root x s now ≡ false = root_kept root_lasts in
      elim (Bool-cases (needs_leaf x s now || is_empty s.bundle_digest)) [
        | inr fresh ↦ inl (ground (arith, h, lasts, fresh), unneeded_facts fresh)
        | inl stale ↦
            let ended : update_secret x updates s
                  (rotate x failure (spiffe_id a) a.key s.bundle now e)
                ≡ (ok tt, t) =
              ground (arith, h, lasts, stale) in
            let (m, rotated, result) =
              updated_facts (rotate x failure (spiffe_id a) a.key s.bundle now e) updates ended in
            let (root, made, leaf) =
              rotate-IsRootOf x failure (spiffe_id a) a.key s.bundle now e m (x.decode s.bundle)
                refl rotated in
            inr (record {
              root = root;
              leaf = renewed root.root m result leaf;
              same_bundle = ap (λ (u : IdentitySecret). u.bundle) result ∙ made.same_bundle;
              digest = ap (λ (u : IdentitySecret). u.bundle_digest) result ∙ made.digest;
              same_key = ap (λ (u : IdentitySecret). u.private_key) result;
              public_key = ap (λ (u : IdentitySecret). u.public_key) result ∙ made.same_public;
            })
      ]
