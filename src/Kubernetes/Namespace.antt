-- ===== src/Kubernetes/Namespace.antt =====
-- internal/api/sovereign_store.go: the custom resources of one tenant's namespace, which is the only one that a
-- method of KubernetesSovereignStore reads or writes, and which calls the API server answers.
use among_clusters.Prelude.{
  not, ℕ, Bool, false, Option, none, some, List, [], ◌∷◌, ◌||◌, if◌then◌else◌, map,
}
use among_clusters.Prelude.Int.{ℤ}
use among_clusters.Text.{Text, ◌==◌}
use among_clusters.Dict
use among_clusters.Dict.{Dict}
use among_clusters.Result.{Result, ok, err, remote}
use among_clusters.Model.{IdentityRegistration, AccessRule}

-- A PeerPolicy; a port that is no int64 is none.
pub record Policy : Type 0 where
  pub service_classes : List Text
  pub protocols : List Text
  pub ports : List (Option ℤ)
  pub directions : List Text
  pub max_advertisements : Option ℤ
  pub match_names : List Text
  pub match_all_ready : Bool

-- What the store reads of a Peer.
pub record PeerResource : Type 0 where
  pub name : Text
  pub state : Text
  pub suspended : Bool
  pub local_identity : Text
  pub remote_identity : Text

-- A ServiceAdvertisement: its label, its annotation and its spec.
pub record ServiceAdvertisement : Type 0 where
  pub publisher : Text
  pub last_published_at : Text
  pub publisher_ref : Text
  pub service_identity : Text
  pub service_class : Text
  pub protocol : Text
  pub port : ℤ
  pub local_service : Text
  pub gateway_endpoints : List Text
  pub target_peers : List Text
  pub ttl_seconds : ℤ
  pub generation : ℤ
  pub policy_ref : Text
  pub revoked : Bool

-- An ImportedService.
pub record ImportedService : Type 0 where
  pub advertisement_ref : Text
  pub peer_ref : Text
  pub local_service_name : Text
  pub local_port : ℕ
  pub suspended : Bool

-- An AccessGrant; a rule that is no object is none.
pub record AccessGrant : Type 0 where
  pub name : Text
  pub generation : ℤ
  pub approved : Bool
  pub revoked : Bool
  pub expires_at : Text
  pub advertisement_ref : Text
  pub peer_ref : Text
  pub scope : Text
  pub namespaces : List Text
  pub rules : List (Option AccessRule)
  pub credential_ref : Text
  pub last_renewed_at : Text
  pub state : Text

-- A ServiceLink.
pub record LinkResource : Type 0 where
  pub peer_ref : Text
  pub state : Text
  pub reason : Text
  pub latency_millis : ℤ
  pub last_handshake_at : Text
  pub last_observed_at : Text

pub record Namespace : Type 0 where
  pub identities : Dict IdentityRegistration
  pub policies : Dict Policy
  pub peers : List PeerResource
  pub advertisements : Dict ServiceAdvertisement
  pub imports : Dict ImportedService
  pub grants : List AccessGrant
  pub links : Dict LinkResource

pub data Kind : Type 0 where
  identity policy peer advertisement import grant link : Kind

-- The calls that the API server answers; another one fails with `failure`. A Get that is answered finds
-- the resource or reports that it does not exist.
pub record Answers : Type 0 where
  pub reads : Kind → Text → Bool
  pub lists : Kind → Bool
  pub writes : Kind → Text → Bool
  pub failure : Text

-- containsString
unfoldable pub contains_string : List Text → Text → Bool
contains_string [] wanted = false
contains_string (value ∷ values) wanted = (value == wanted) || contains_string values wanted

-- The peer with the name.
unfoldable pub find_peer : List PeerResource → Text → Option PeerResource
find_peer [] name = none
find_peer (p ∷ ps) name = let rest = find_peer ps name in if p.name == name then some p else rest

unfoldable pub find_grant : List AccessGrant → Text → Option AccessGrant
find_grant [] name = none
find_grant (g ∷ gs) name = let rest = find_grant gs name in if g.name == name then some g else rest

-- The grants with a new version of one of them.
unfoldable pub put_grant : List AccessGrant → AccessGrant → List AccessGrant
put_grant gs new = map (λ g. if g.name == new.name then new else g) gs

-- A Get: none if it fails or finds nothing.
unfoldable pub read : {V : Type 0} → Bool → Option V → Option V
read answered found = if answered then found else none

-- RegisterIdentity: Create of a ClusterIdentity; one that is there already is an error.
unfoldable pub register_identity :
    Answers → IdentityRegistration → Namespace → Result (Unit {0}) × Namespace
register_identity answers v space =
    if not (answers.writes identity v.cluster_id) || Dict.has space.identities v.cluster_id
    then (err (remote answers.failure), space)
    else (ok tt, record space { identities = Dict.put space.identities v.cluster_id v })
