-- ===== src/Kubernetes/Advertising.antt =====
-- internal/api/sovereign_store.go: SyncAdvertisements of KubernetesSovereignStore, the checks on each service
-- and the object that is made of it.
pub mod Names
pub mod Allowed
use among_clusters.Prelude.{
  ℕ, ◌+◌, Bool, true, false, not, ◌&&◌, ◌||◌, Option, none, some, List, [], ◌∷◌, ◌++◌, leb, length,
  if◌then◌else◌, take,
}
use among_clusters.Prelude.Int.{ℤ, pos, ltb_ℤ, eqb_ℤ}
use among_clusters.Text.{Text, codes, ◌==◌, is_empty}
use among_clusters.Time.{Time}
use among_clusters.Dict
use among_clusters.Dict.{Dict}
use among_clusters.Model.{IdentityRegistration, AdvertisedService}
use among_clusters.Result.{Result, Error, ok, err, remote}
use among_clusters.Reconciler.{Rfc3339}
use among_clusters.Kubernetes.Namespace
use among_clusters.Kubernetes.Namespace.{
  Policy, PeerResource, ServiceAdvertisement, ImportedService, Answers, contains_string, find_peer,
  read,
}
use among_clusters.Kubernetes.Advertising.Names.{
  advertisement_name, import_name, import_port, sort_texts,
}

-- Is the service incomplete?
unfoldable pub is_invalid : AdvertisedService → Bool
is_invalid v =
    is_empty v.name
    || is_empty v.namespace
    || is_empty v.policy_ref
    || ltb_ℤ v.port (pos 1)
    || (elim v.target_peers [ [] ↦ true | _ ∷ _ ↦ false ])

policy_error : Text → Text → Error
policy_error ref text = remote (codes "policy " ++ (ref ++ text))

-- found && maximum >= 0 && int64(len(services)) > maximum
unfoldable pub exceeds : Policy → ℕ → Bool
exceeds policy count = elim policy.max_advertisements [
  | none ↦ false
  | some maximum ↦ not (ltb_ℤ maximum (pos 0)) && ltb_ℤ maximum (pos count)
]

-- len(targetPeers) == 1 && targetPeers[0] == "*"
unfoldable pub is_wildcard : List Text → Bool
is_wildcard [] = false
is_wildcard (t ∷ []) = t == codes "*"
is_wildcard (t ∷ u ∷ ts) = false

-- issuer == local || issuer == remote
unfoldable pub is_member : PeerResource → Text → Bool
is_member peer issuer = (issuer == peer.local_identity) || (issuer == peer.remote_identity)

-- The names of the peers that the wildcard stands for.
unfoldable pub ready_peers : Text → List PeerResource → List Text
unfolding is_member
ready_peers issuer [] = []
ready_peers issuer (peer ∷ peers) =
    let rest = ready_peers issuer peers in
    if (peer.state == codes "Ready") && (not peer.suspended && is_member peer issuer)
    then peer.name ∷ rest
    else rest

-- portAllowed
unfoldable pub port_in : List (Option ℤ) → ℤ → Bool
port_in [] port = false
port_in (none ∷ values) port = port_in values port
port_in (some value ∷ values) port = eqb_ℤ value port || port_in values port

unfoldable pub port_allowed : Policy → ℤ → Bool
unfolding port_in
port_allowed policy port = elim policy.ports [ [] ↦ true | v ∷ vs ↦ port_in (v ∷ vs) port ]

-- The policy allows the contract of the service.
unfoldable pub contract_allowed : Policy → AdvertisedService → Bool
unfolding port_allowed
contract_allowed policy v =
    contains_string policy.service_classes v.service_class
    && (contains_string policy.protocols v.protocol
        && (contains_string policy.directions (codes "export") && port_allowed policy v.port))

module _ (answers : Answers) (issuer : Text) where
  -- targetPeers, for the policy that the service names.
  unfoldable pub resolve_targets :
      Policy → AdvertisedService → List PeerResource → Result (List Text)
  unfolding is_wildcard ready_peers policy_error
  resolve_targets policy v peers =
      if not (is_wildcard v.target_peers)
      then ok v.target_peers
      else if not policy.match_all_ready
      then err (policy_error v.policy_ref (codes " does not allow all Ready peers"))
      else if not (answers.lists Namespace.peer)
      then err (remote answers.failure)
      else elim (sort_texts (ready_peers issuer peers)) [
        | [] ↦ err (policy_error v.policy_ref (codes " matches no Ready peers"))
        | t ∷ ts ↦ ok (t ∷ ts)
      ]

  -- The checks on one target peer.
  unfoldable pub check_target : Policy → Text → List PeerResource → Text → Result (Unit {0})
  unfolding policy_error is_member
  check_target policy ref peers target =
      if not policy.match_all_ready && not (contains_string policy.match_names target)
      then err (policy_error ref (codes " denies peer " ++ target))
      else elim (read (answers.reads Namespace.peer target) (find_peer peers target)) [
        | none ↦ err (remote answers.failure)
        | some peer ↦
            if is_member peer issuer
            then ok tt
            else err (remote (codes "publisher is not a member of target peer"))
      ]

  unfoldable pub check_targets : Policy → Text → List PeerResource → List Text → Result (Unit {0})
  unfolding check_target
  check_targets policy ref peers [] = ok tt
  check_targets policy ref peers (t ∷ ts) =
      let rest = check_targets policy ref peers ts in
      elim (check_target policy ref peers t) [ ok _ ↦ rest | err e ↦ err e ]

  -- The checks of a resolved service; the result is its target peers.
  unfoldable pub check_contract :
      Policy → AdvertisedService → List PeerResource → List Text → Result (List Text)
  unfolding contract_allowed check_targets policy_error
  check_contract policy v peers targets =
      if not (contract_allowed policy v)
      then err (policy_error v.policy_ref (codes " denies service contract"))
      else elim (check_targets policy v.policy_ref peers targets) [
        | ok _ ↦ ok targets
        | err e ↦ err e
      ]

  unfoldable pub check_policy :
      ℕ → AdvertisedService → List PeerResource → Policy → Result (List Text)
  unfolding exceeds resolve_targets check_contract policy_error
  check_policy count v peers policy =
      if exceeds policy count
      then err (policy_error v.policy_ref (codes " advertisement quota exceeded"))
      else elim (resolve_targets policy v peers) [
        | err e ↦ err e
        | ok targets ↦ check_contract policy v peers targets
      ]

  -- The part of the loop's body that only reads.
  unfoldable pub check_service : ℕ → AdvertisedService → Namespace.Namespace → Result (List Text)
  unfolding is_invalid check_policy policy_error
  check_service count v space =
      if is_invalid v
      then err (remote (codes "invalid service advertisement"))
      else elim (read (answers.reads Namespace.policy v.policy_ref)
          (Dict.get space.policies v.policy_ref)) [
            | none ↦ err (policy_error v.policy_ref (codes " unavailable: " ++ answers.failure))
            | some policy ↦ check_policy count v space.peers policy
          ]

-- The object of a service.
unfoldable pub advertisement_of :
    Rfc3339
    → Time
    → Text
    → IdentityRegistration
    → AdvertisedService
    → List Text
    → ServiceAdvertisement
advertisement_of layout now issuer identity v targets = record {
  publisher = issuer;
  last_published_at = layout.format now;
  publisher_ref = issuer;
  service_identity =
      codes "spiffe://"
      ++ (identity.trust_domain
          ++ (codes "/ns/" ++ (v.namespace ++ (codes "/service/" ++ v.name))));
  service_class = v.service_class;
  protocol = v.protocol;
  port = v.port;
  local_service = v.name;
  gateway_endpoints = identity.gateway_endpoints;
  target_peers = targets;
  ttl_seconds = v.ttl_seconds;
  generation = v.generation;
  policy_ref = v.policy_ref;
  revoked = false;
}
