-- ===== src/Kubernetes/Grants.antt =====
-- internal/api/sovereign_store.go: PendingGrants, FulfillGrant and ObserveLink of KubernetesSovereignStore, on
-- the namespace of the tenant, with no other writer during the call.
pub mod Fulfilled
use among_clusters.Prelude.{
  ℕ, Bool, true, false, not, ◌&&◌, ◌||◌, Option, none, some, List, [], ◌∷◌, ◌++◌, if◌then◌else◌,
}
use among_clusters.Text.{Text, codes, ◌==◌, is_empty, has_prefix}
use among_clusters.Time.{Time}
use among_clusters.Dict
use among_clusters.Model.{AccessRule, GrantInstruction, GrantFulfillment, LinkObservation}
use among_clusters.Result.{Result, Error, ok, err, remote}
use among_clusters.Reconciler.{Rfc3339}
use among_clusters.Kubernetes.Namespace
use among_clusters.Kubernetes.Namespace.{
  PeerResource, ServiceAdvertisement, AccessGrant, LinkResource, Answers, find_peer, find_grant,
  put_grant, read,
}
use among_clusters.Kubernetes.Advertising.{is_member}

-- The rules of a grant that are objects.
unfoldable pub access_rules : List (Option AccessRule) → List AccessRule
access_rules [] = []
access_rules (none ∷ rules) = access_rules rules
access_rules (some rule ∷ rules) = rule ∷ access_rules rules

-- "https://" + adRef + "-" + peerRef + "." + tenant + ".svc.cluster.local:6443"
unfoldable pub proxy_url : Text → Text → Text → Text
proxy_url advertisement peer tenant =
    codes "https://"
    ++ (advertisement
        ++ (codes "-" ++ (peer ++ (codes "." ++ (tenant ++ codes ".svc.cluster.local:6443")))))

-- The instruction of a grant.
unfoldable pub instruction_of : Text → Time → AccessGrant → GrantInstruction
unfolding access_rules proxy_url
instruction_of tenant expires o = record {
  name = o.name;
  tenant = tenant;
  peer_ref = o.peer_ref;
  advertisement_ref = o.advertisement_ref;
  generation = o.generation;
  scope = if is_empty o.scope then codes "Namespaced" else o.scope;
  namespaces = o.namespaces;
  rules = access_rules o.rules;
  expires_at = expires;
  revoked = o.revoked;
  proxy_url = proxy_url o.advertisement_ref o.peer_ref tenant;
}

-- The advertisement that a Get yields.
unfoldable pub advertisement_at : Answers → Text → Namespace.Namespace → Option ServiceAdvertisement
advertisement_at answers name space =
    read (answers.reads Namespace.advertisement name) (Dict.get space.advertisements name)

-- Not publisher != issuer || protocolName != "kubernetes-api"
unfoldable pub is_own_api : Text → ServiceAdvertisement → Bool
is_own_api issuer a = (a.publisher_ref == issuer) && (a.protocol == codes "kubernetes-api")

module _ (answers : Answers) (layout : Rfc3339) (tenant issuer : Text) where
  -- The loop's body: the instruction, or none where the loop continues.
  unfoldable pub pending_grant : Namespace.Namespace → AccessGrant → Option GrantInstruction
  unfolding advertisement_at is_own_api
  pending_grant space o = if not o.approved then none else elim (layout.parse o.expires_at) [
    | none ↦ none
    | some expires ↦ elim (advertisement_at answers o.advertisement_ref space) [
      | none ↦ none
      | some a ↦ if is_own_api issuer a then some (instruction_of tenant expires o) else none
    ]
  ]

  unfoldable pub collect_grants : Namespace.Namespace → List AccessGrant → List GrantInstruction
  unfolding pending_grant
  collect_grants space [] = []
  collect_grants space (o ∷ os) =
      let rest = collect_grants space os in
      elim (pending_grant space o) [ none ↦ rest | some i ↦ i ∷ rest ]

  -- PendingGrants
  unfoldable pub pending_grants : Namespace.Namespace → Result (List GrantInstruction)
  unfolding collect_grants
  pending_grants space =
      if answers.lists Namespace.grant
      then ok (collect_grants space space.grants)
      else err (remote answers.failure)

  -- The new status of a grant.
  unfoldable pub renewed : GrantFulfillment → AccessGrant → AccessGrant
  renewed v o = record o {
    credential_ref = v.credential_ref;
    last_renewed_at = layout.format v.renewed_at;
    state = codes "Active";
  }

  -- The end of FulfillGrant, for a grant and its advertisement.
  unfoldable pub fulfill_found :
      GrantFulfillment
      → AccessGrant
      → ServiceAdvertisement
      → Namespace.Namespace
      → Result (Unit {0}) × Namespace.Namespace
  unfolding renewed
  fulfill_found v o a space =
      if not (a.publisher_ref == issuer)
      then (err (remote (codes "issuer does not own grant advertisement")), space)
      else if not (has_prefix v.credential_ref (codes "credential://among-clusters/"))
      then (err (remote (codes "invalid opaque credential reference")), space)
      else if answers.writes Namespace.grant o.name
      then (ok tt, record space { grants = put_grant space.grants (renewed v o) })
      else (err (remote answers.failure), space)

  -- FulfillGrant
  unfoldable pub fulfill_grant :
      GrantFulfillment → Namespace.Namespace → Result (Unit {0}) × Namespace.Namespace
  unfolding fulfill_found advertisement_at
  fulfill_grant v space =
      elim (read (answers.reads Namespace.grant v.grant_ref)
        (find_grant space.grants v.grant_ref)) [
          | none ↦ (err (remote answers.failure), space)
          | some o ↦ elim (advertisement_at answers o.advertisement_ref space) [
            | none ↦ (err (remote answers.failure), space)
            | some a ↦ fulfill_found v o a space
          ]
        ]

  -- The end of ObserveLink, for a link and its peer; `later` is the time of the server.
  unfoldable pub observe_found :
      LinkObservation
      → Time
      → LinkResource
      → PeerResource
      → Namespace.Namespace
      → Result (Unit {0}) × Namespace.Namespace
  observe_found v later link peer space =
      if not (is_member peer issuer)
      then (err (remote (codes "issuer is not a member of the peer")), space)
      else if answers.writes Namespace.link v.link_ref
      then (
        ok tt,
        record space {
          links = Dict.put space.links v.link_ref (record link {
            state = if v.ready then codes "Ready" else codes "Disconnected";
            reason = v.reason;
            latency_millis = v.latency_millis;
            last_handshake_at = layout.format v.last_handshake_at;
            last_observed_at = layout.format later;
          });
        },
      )
      else (err (remote answers.failure), space)

  -- ObserveLink
  unfoldable pub observe_link :
      LinkObservation → Time → Namespace.Namespace → Result (Unit {0}) × Namespace.Namespace
  unfolding observe_found
  observe_link v later space =
      elim (read (answers.reads Namespace.link v.link_ref) (Dict.get space.links v.link_ref)) [
        | none ↦ (err (remote answers.failure), space)
        | some link ↦
            if not (link.peer_ref == v.peer_ref)
            then (err (remote (codes "link does not reference peer")), space)
            else elim (read (answers.reads Namespace.peer link.peer_ref)
                (find_peer space.peers link.peer_ref)) [
                  | none ↦ (err (remote answers.failure), space)
                  | some peer ↦ observe_found v later link peer space
                ]
      ]
