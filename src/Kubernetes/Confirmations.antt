-- ===== src/Kubernetes/Confirmations.antt =====
-- What it takes to confirm a peer's bundle, and when a peer becomes ready.
use among_clusters.Prelude.{
  ◌≡◌, ◌≢◌, ◌⊎◌, refl, ◌∙◌, true, inl, inr, Bool, Option, none, some, arith, Option-cases,
}
use among_clusters.Text.{Text}
use among_clusters.Text.Equality.{eq_iff}
use among_clusters.Dict.{get, put}
use among_clusters.Model.{IdentityRegistration, BundleConfirmation}
use among_clusters.Result.{Result, ok, err}
use among_clusters.Reconciler.{Peer}
use among_clusters.Kubernetes.{
  Resources, Side, local_side, remote_side, resource_key, side_of, other_identity, confirm_side,
  identity, confirm_with, confirm_peer, confirm_peer_bundle,
}

local_issuer :
    (peer : Peer) (issuer : Text)
    → side_of peer issuer ≡ some local_side
    → issuer ≡ peer.local_identity
unfolding side_of
local_issuer peer issuer h =
    ground (arith, h, eq_iff issuer peer.local_identity, eq_iff issuer peer.remote_identity)

remote_issuer :
    (peer : Peer) (issuer : Text)
    → side_of peer issuer ≡ some remote_side
    → (issuer ≢ peer.local_identity) × (issuer ≡ peer.remote_identity)
unfolding side_of
remote_issuer peer issuer h =
    let here = eq_iff issuer peer.local_identity in
    let there = eq_iff issuer peer.remote_identity in
    ((λ e. ground (arith, h, here, e)), ground (arith, h, here, there))

module _ (writes : Text → Bool) (failure : Text) (tenant issuer : Text) (v : BundleConfirmation)
    (s t : Resources) where
  -- The identity is registered with the digest that is confirmed.
  abbrev pub HasDigest : Text → Type 0
  HasDigest id =
      (other : IdentityRegistration) × (get s.identities (resource_key tenant id) ≡ some other)
      × (other.bundle_digest ≡ v.bundle_digest)

  -- The peer is now as given, and nothing else has changed.
  abbrev pub IsUpdated : Peer → Type 0
  IsUpdated peer = t ≡ record s { peers = put s.peers (resource_key tenant v.peer_ref) peer }

  -- The facts of a confirmation that was taken.
  pub record IsConfirmed : Type 0 where
    pub peer : Peer
    pub found : get s.peers (resource_key tenant v.peer_ref) ≡ some peer
    pub taken :
        ((issuer ≡ peer.local_identity)
          × HasDigest peer.remote_identity
          × IsUpdated (record peer { local_confirmed = true }))
        ⊎ ((issuer ≢ peer.local_identity)
            × (issuer ≡ peer.remote_identity)
            × HasDigest peer.local_identity
            × IsUpdated (record peer { remote_confirmed = true }))

  confirm_with_facts :
      (k : Text) (peer : Peer) (side : Side) (r : Result IdentityRegistration)
      → confirm_with writes failure k peer side v.bundle_digest r s ≡ (ok tt, t)
      → (w : IdentityRegistration) × (r ≡ ok w)
        × (w.bundle_digest ≡ v.bundle_digest)
        × (t ≡ record s { peers = put s.peers k (confirm_side peer side) })
  unfolding confirm_with
  confirm_with_facts k peer side (err e) h = cc
  confirm_with_facts k peer side (ok w) h =
      (w, refl, ground (arith, h, eq_iff w.bundle_digest v.bundle_digest), ground (arith, h))

  identity_facts :
      (id : Text) (o : Option IdentityRegistration) (w : IdentityRegistration)
      → get s.identities (resource_key tenant id) ≡ o
      → identity writes failure tenant id s ≡ ok w
      → (u : IdentityRegistration) × (o ≡ some u) × (u.bundle_digest ≡ w.bundle_digest)
  unfolding identity
  identity_facts id none w e h = ground (arith, e, h)
  identity_facts id (some u) w e h = (u, refl, ground (arith, e, h))

  side_facts :
      (peer : Peer) (side : Side)
      → side_of peer issuer ≡ some side
      → confirm_peer writes failure tenant issuer peer v s ≡ (ok tt, t)
      → HasDigest (other_identity peer side) × IsUpdated (confirm_side peer side)
  unfolding confirm_peer
  side_facts peer side e h =
      let k = resource_key tenant v.peer_ref in
      let id = other_identity peer side in
      let (w, read, same, result) =
        confirm_with_facts k peer side (identity writes failure tenant id s)
          (ground (arith, e, h)) in
      let (u, known, digest) =
        identity_facts id (get s.identities (resource_key tenant id)) w refl read in
      ((u, known, digest ∙ same), result)

  confirm_peer_facts :
      (peer : Peer) (o : Option Side)
      → get s.peers (resource_key tenant v.peer_ref) ≡ some peer
      → side_of peer issuer ≡ o
      → confirm_peer writes failure tenant issuer peer v s ≡ (ok tt, t)
      → IsConfirmed
  unfolding confirm_peer other_identity confirm_side
  confirm_peer_facts peer none found e h = ground (arith, e, h)
  confirm_peer_facts peer (some local_side) found e h =
      let (digest, result) = side_facts peer local_side e h in
      record {
        peer = peer;
        found = found;
        taken = inl (local_issuer peer issuer e, digest, result);
      }
  confirm_peer_facts peer (some remote_side) found e h =
      let (digest, result) = side_facts peer remote_side e h in
      let (other, own) = remote_issuer peer issuer e in
      record { peer = peer; found = found; taken = inr (other, own, digest, result) }

  -- If the Kubernetes store confirms a peer's bundle, then the peer exists, and either the issuer is its
  -- local identity, its remote identity is registered with the digest that is confirmed, and the one
  -- change is that the peer's local confirmation is set; or the issuer is its remote identity and not
  -- its local one, the local identity is registered with that digest, and the one change is that the
  -- remote confirmation is set.
  pub confirm_peer_bundle-IsConfirmed :
      confirm_peer_bundle writes failure tenant issuer v s ≡ (ok tt, t) → IsConfirmed
  unfolding confirm_peer_bundle
  confirm_peer_bundle-IsConfirmed h =
      elim (Option-cases (get s.peers (resource_key tenant v.peer_ref))) [
        | inl e ↦ absurd (ground (arith, e, h))
        | inr (peer, e) ↦
            confirm_peer_facts peer (side_of peer issuer) e refl (ground (arith, e, h))
      ]
