-- ===== src/Agent/Identity/Restart.antt =====
-- What an agent that starts again reads from its Secret.
use among_clusters.Prelude.{
  ℕ, ◌^◌, ◌<◌, ◌≡◌, refl, ap, ◌∙◌, false, Option, none, some, arith, length,
}
use among_clusters.Text.{is_empty}
use among_clusters.Time.{Time}
use among_clusters.Result.{Result, Error, ok, err}
use among_clusters.Certificates.{X509, Entropy, Material, private_key_size}
use among_clusters.Agent.{Agent, format_uint, parse_uint}
use among_clusters.Agent.Numbers.{parse_uint-format_uint, format_uint_nonempty}
use among_clusters.Agent.Identity.{
  IdentitySecret, with_material, new_material, update_secret, refresh_tls_secret, load_identity,
}

module _ (x : X509) (failure : Error) (updates : Option Error) (s : IdentitySecret) (now : Time)
    (e : Entropy) where
  update_secret_generation :
      (r : Result Material) (o : Option Error)
      → is_empty s.generation ≡ false
      → (update_secret x o s r).1.generation ≡ s.generation
  unfolding update_secret with_material
  update_secret_generation (ok m) none h = rw h refl
  update_secret_generation (ok m) (some f) h = refl
  update_secret_generation (err f) o h = refl

  refresh_tls_secret_generation :
      (a : Agent)
      → is_empty s.generation ≡ false
      → (refresh_tls_secret x failure a updates s now e).1.generation ≡ s.generation
  unfolding refresh_tls_secret
  refresh_tls_secret_generation a h =
      let updated = update_secret_generation (new_material x failure a s now e) updates h in
      ground (arith, updated)

  loaded_facts :
      (a b : Agent) (t : IdentitySecret) (r : Result (Unit {0}))
      → (refresh_tls_secret x failure (record a { key = s.private_key }) updates s now e).0 ≡ r
      → load_identity x failure a updates s now e ≡ (ok b, t)
      → (length s.private_key ≡ private_key_size)
        × (b.key ≡ s.private_key)
        × (t ≡ (refresh_tls_secret x failure (record a { key = s.private_key }) updates s now e).1)
        × (b.sequence ≡ parse_uint t.generation)
  unfolding load_identity
  loaded_facts a b t (err f) q h = absurd (ground (arith, q, h))
  loaded_facts a b t (ok u) q h =
      (ground (arith, q, h), ground (arith, q, h), ground (arith, q, h), ground (arith, q, h))

  -- An agent that loads its identity from a Secret which holds the sequence number n, a uint64, goes on
  -- with n and with the Secret's private key, also if its certificates were renewed, and the Secret
  -- keeps the number.
  pub load_identity_sequence :
      (a b : Agent) (t : IdentitySecret) (n : ℕ)
      → n < 2 ^ 64
      → s.generation ≡ format_uint n
      → load_identity x failure a updates s now e ≡ (ok b, t)
      → (b.sequence ≡ n) × (b.key ≡ s.private_key) × (t.generation ≡ format_uint n)
  load_identity_sequence a b t n fits stored h =
      let refreshed =
        refresh_tls_secret x failure (record a { key = s.private_key }) updates s now e in
      let (size, key, left, sequence) = loaded_facts a b t refreshed.0 refl h in
      let kept : t.generation ≡ format_uint n =
        ap (λ (u : IdentitySecret). u.generation) left
        ∙ refresh_tls_secret_generation (record a { key = s.private_key })
            (ap is_empty stored ∙ format_uint_nonempty n)
        ∙ stored in
      (sequence ∙ ap parse_uint kept ∙ parse_uint-format_uint n fits, key, kept)
