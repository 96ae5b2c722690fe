-- ===== src/Store/History/Permanence.antt =====
-- What a history of calls on the store in memory can never undo, whoever makes the calls: the single
-- use of invitations and claims, the identity of a cluster, and the refusal of replays.
use among_clusters.Prelude.{
  ℕ, ◌≤◌, ◌≡◌, ◌≢◌, refl, true, not, some, List, arith, Option-cases, inl, inr, ap, ◌⊎◌,
}
use among_clusters.Text.{Text}
use among_clusters.Text.Equality.{eq_refl}
use among_clusters.Time.{Time, zero_time, is_zero, is_zero_iff}
use among_clusters.Dict
use among_clusters.Dict.{Dict, get-put}
use among_clusters.Model.{IdentityRegistration, Invitation, OnboardingClaim}
use among_clusters.Result.{ok, err, identity_exists}
use among_clusters.Store.{
  MemoryStore, key, consume_invitation, consume_onboarding_claim, register_identity, identity,
  record_generation, generation_of,
}
use among_clusters.Store.Invitations.{consume_invitation_iff, consume_invitation_state}
use among_clusters.Store.Claims.{consume_onboarding_claim_iff, consume_onboarding_claim_state}
use among_clusters.Store.Generations.{
  record_generation_iff, generation_of-record, nonce_used-record,
}
use among_clusters.Store.History.{Extends}

used_now : (now : Time) → now ≢ zero_time → not (is_zero now) ≡ true
used_now now h = ground (arith, is_zero_iff now)

get-put_self {ℓ} :
    {V : Type ℓ} (d : Dict V) (k : Text) (v : V) → Dict.get (Dict.put d k v) k ≡ some v
get-put_self d k v = rw (get-put d k k v) (rw (eq_refl k))

module _ (s : MemoryStore) (id hash tenant cluster : Text) (requested : List Text) (now : Time)
    (u : Invitation) (t : MemoryStore) where
  abbrev redeemed : MemoryStore
  redeemed = (consume_invitation id hash tenant cluster requested now s).1

  -- The entry of a redeemed invitation, after the history.
  used_entry :
      (consume_invitation id hash tenant cluster requested now s).0 ≡ ok u
      → now ≢ zero_time
      → Extends redeemed t
      → Dict.get t.invitations id ≡ some u
  used_entry h nonzero later =
      let (v, found, redeems, result) =
        (consume_invitation_iff id hash tenant cluster requested now s u).0 h in
      later.invitations id u
        (rw (consume_invitation_state id hash tenant cluster requested now s u h)
          (get-put_self s.invitations id u))
        (rw result (used_now now nonzero))

  -- An invitation that was redeemed at a time other than the zero time is never redeemed again,
  -- from any store that keeps what the first
  -- redemption settled and whatever the second request says.
  pub invitation_single_use :
      (hash' tenant' cluster' : Text) (requested' : List Text) (now' : Time) (u' : Invitation)
      → (consume_invitation id hash tenant cluster requested now s).0 ≡ ok u
      → now ≢ zero_time
      → Extends redeemed t
      → (consume_invitation id hash' tenant' cluster' requested' now' t).0 ≢ ok u'
  invitation_single_use hash' tenant' cluster' requested' now' u' h nonzero later again =
      let (v, found, redeems, result) =
        (consume_invitation_iff id hash tenant cluster requested now s u).0 h in
      let (w, held, redeems', result') =
        (consume_invitation_iff id hash' tenant' cluster' requested' now' t u').0 again in
      let entry = used_entry h nonzero later in
      let same : w ≡ u = cc (held, entry) in
      nonzero (
        cc (
          redeems'.unused,
          ap (λ (x : Invitation). x.used_at) same,
          ap (λ (x : Invitation). x.used_at) result,
        ))

module _ (s : MemoryStore) (tenant id hash : Text) (now : Time) (u : OnboardingClaim)
    (t : MemoryStore) where
  abbrev taken : MemoryStore
  taken = (consume_onboarding_claim tenant id hash now s).1

  -- An onboarding claim that was consumed at a time other than the zero time is never consumed again,
  -- whatever calls come between and whatever the second request says.
  pub claim_single_use :
      (tenant' hash' : Text) (now' : Time) (u' : OnboardingClaim)
      → (consume_onboarding_claim tenant id hash now s).0 ≡ ok u
      → now ≢ zero_time
      → Extends taken t
      → (consume_onboarding_claim tenant' id hash' now' t).0 ≢ ok u'
  claim_single_use tenant' hash' now' u' h nonzero later again =
      let (v, found, consumes, result) =
        (consume_onboarding_claim_iff tenant id hash now s u).0 h in
      let (w, held, consumes', result') =
        (consume_onboarding_claim_iff tenant' id hash' now' t u').0 again in
      let entry =
        later.claims id u
          (rw (consume_onboarding_claim_state tenant id hash now s u h)
            (get-put_self s.onboarding_claims id u))
          (rw result (used_now now nonzero)) in
      let same : w ≡ u = cc (held, entry) in
      nonzero (
        cc (
          consumes'.unused,
          ap (λ (x : OnboardingClaim). x.used_at) same,
          ap (λ (x : OnboardingClaim). x.used_at) result,
        ))

module _ (s : MemoryStore) (v : IdentityRegistration) (t : MemoryStore) where
  registered_entry :
      (register_identity v s).0 ≡ ok tt
      → Dict.get (register_identity v s).1.identities (key v.tenant v.cluster_id) ≡ some v
  unfolding register_identity
  registered_entry h = elim (Option-cases (Dict.get s.identities (key v.tenant v.cluster_id))) [
    | inl new ↦
        rw (new, register_identity) (get-put_self s.identities (key v.tenant v.cluster_id) v)
    | inr (u, old) ↦ ground arith
  ]

  -- Once a cluster's identity is registered, it is what the store returns for that cluster after any
  -- calls, and every later registration of the cluster is refused and changes nothing.
  pub identity_permanent :
      (w : IdentityRegistration)
      → w.tenant ≡ v.tenant
      → w.cluster_id ≡ v.cluster_id
      → (register_identity v s).0 ≡ ok tt
      → Extends (register_identity v s).1 t
      → ((identity v.tenant v.cluster_id t).0 ≡ ok v)
        × (register_identity w t ≡ (err identity_exists, t))
  unfolding identity register_identity
  identity_permanent w tenants clusters h later =
      let entry = later.identities (key v.tenant v.cluster_id) v (registered_entry h) refl in
      (ground (arith, entry), ground (arith, entry, tenants, clusters))

module _ (s : MemoryStore) (tenant id nonce : Text) (g : ℕ) (t : MemoryStore) where
  abbrev recorded : MemoryStore
  recorded = (record_generation tenant id g nonce s).1

  -- Once a generation is recorded for a cluster, no call history makes the store record for that
  -- cluster a generation that is not above it, or the same nonce again.
  pub replay_refused :
      (g' : ℕ) (nonce' : Text)
      → (record_generation tenant id g nonce s).0 ≡ ok tt
      → (g' ≤ g) ⊎ (nonce' ≡ nonce)
      → Extends recorded t
      → (record_generation tenant id g' nonce' t).0 ≢ ok tt
  replay_refused g' nonce' h replay later again =
      let (newer, fresh) = (record_generation_iff t tenant id nonce' g').0 again in
      let last : generation_of recorded.generations (key tenant id) ≡ g =
        rw (generation_of-record s tenant id nonce g (key tenant id) h)
          (rw (eq_refl (key tenant id))) in
      let used = later.nonces (key tenant id) nonce (nonce_used-record s tenant id nonce g h) in
      elim replay [
        | inl old ↦ absurd (omega (arith, later.generations (key tenant id), last, newer, old))
        | inr same ↦ cc (used, fresh, same)
      ]
