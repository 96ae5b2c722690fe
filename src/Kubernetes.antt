-- ===== src/Kubernetes.antt =====
-- internal/api/sovereign_store.go: KubernetesSovereignStore, the confirmation of a peer's bundle, over the
-- custom resources ClusterIdentity and Peer (Identity, ConfirmPeerBundle). A collection is a map from
-- the key namespace/name. `writes` says for which keys the API server accepts the status update, and
-- `failure` is the text of its errors.
pub mod Confirmations
pub mod Secrets
pub mod Generations
pub mod Namespace
pub mod Advertising
pub mod Publishing
pub mod Grants
use among_clusters.Prelude.{
  ◌≡◌, Bool, true, false, not, Option, none, some, [], ◌++◌, if◌then◌else◌,
}
use among_clusters.Text.{Text, codes, ◌==◌}
use among_clusters.Dict
use among_clusters.Dict.{Dict, get, put}
use among_clusters.Model.{IdentityRegistration, BundleConfirmation}
use among_clusters.Result.{Result, Error, ok, err, remote}
use among_clusters.Reconciler.{Peer}

pub record Resources : Type 0 where
  pub identities : Dict IdentityRegistration
  pub peers : Dict Peer

-- The side of a peer that an identity confirms.
pub data Side : Type 0 where
  local_side remote_side : Side

unfoldable pub resource_key : Text → Text → Text
resource_key namespace name = namespace ++ (codes "/" ++ name)

-- switch issuerID
unfoldable pub side_of : Peer → Text → Option Side
side_of peer issuer =
    if issuer == peer.local_identity
    then some local_side
    else if issuer == peer.remote_identity
    then some remote_side
    else none

-- expectedRef
unfoldable pub other_identity : Peer → Side → Text
other_identity peer local_side = peer.remote_identity
other_identity peer remote_side = peer.local_identity

-- SetNestedField(peer.Object, true, "status", field)
unfoldable pub confirm_side : Peer → Side → Peer
confirm_side peer local_side = record peer { local_confirmed = true }
confirm_side peer remote_side = record peer { remote_confirmed = true }

module _ (writes : Text → Bool) (failure : Text) where
  -- Identity: the fields that are read back from the resource.
  unfoldable pub identity : Text → Text → Resources → Result IdentityRegistration
  identity tenant id s = elim (get s.identities (resource_key tenant id)) [
    | none ↦ err (remote failure)
    | some v ↦ ok (record v { tenant = tenant; cluster_id = id; capabilities = [] })
  ]

  -- The end of ConfirmPeerBundle, from the comparison of the digests on.
  unfoldable pub confirm_with :
      Text
      → Peer
      → Side
      → Text
      → Result IdentityRegistration
      → Resources
      → Result (Unit {0}) × Resources
  confirm_with k peer side digest (err e) s = (err e, s)
  confirm_with k peer side digest (ok expected) s =
      if not (expected.bundle_digest == digest)
      then (err (remote (codes "bundle digest mismatch")), s)
      else if writes k
      then (ok tt, record s { peers = put s.peers k (confirm_side peer side) })
      else (err (remote failure), s)

  -- ConfirmPeerBundle, for a peer that was found.
  unfoldable pub confirm_peer :
      Text → Text → Peer → BundleConfirmation → Resources → Result (Unit {0}) × Resources
  confirm_peer tenant issuer peer v s = elim (side_of peer issuer) [
    | none ↦ (err (remote (codes "issuer is not a member of the peer")), s)
    | some side ↦
        confirm_with (resource_key tenant v.peer_ref) peer side v.bundle_digest
          (identity tenant (other_identity peer side) s) s
  ]

  -- ConfirmPeerBundle
  unfoldable pub confirm_peer_bundle :
      Text → Text → BundleConfirmation → Resources → Result (Unit {0}) × Resources
  confirm_peer_bundle tenant issuer v s = elim (get s.peers (resource_key tenant v.peer_ref)) [
    | none ↦ (err (remote failure), s)
    | some peer ↦ confirm_peer tenant issuer peer v s
  ]
