-- ===== src/Kubernetes/Advertising/Allowed.antt =====
-- What a service must satisfy for an advertisement to be made of it.
use among_clusters.Prelude.{
  ℕ, ◌≡◌, ◌⊎◌, refl, sym, ap, subst, inl, inr, Bool, true, false, not, ◌&&◌, Option, none, some,
  List, [], ◌∷◌, In, All, arith, Option-cases, Bool-cases,
}
use among_clusters.Prelude.Int.{ℤ, pos, ◌<ℤ◌, ◌≤ℤ◌, ltb_ℤ, ltb_ℤ_iff, eqb_ℤ, eqb_ℤ_iff}
use among_clusters.Text.{Text, codes, ◌==◌}
use among_clusters.Text.Equality.{eq_iff}
use among_clusters.Dict
use among_clusters.Model.{AdvertisedService}
use among_clusters.Result.{Result, ok, err}
use among_clusters.Kubernetes.Namespace
use among_clusters.Kubernetes.Namespace.{
  Policy, PeerResource, Answers, contains_string, find_peer, read,
}
use among_clusters.Kubernetes.Advertising.{
  exceeds, is_member, port_in, port_allowed, contract_allowed, resolve_targets, check_target,
  check_targets, check_contract, check_policy, check_service,
}

-- The issuer is one of the two owners of the target peer, which the policy selects.
pub record IsTarget (policy : Policy) (issuer : Text) (peers : List PeerResource) (target : Text)
    : Type 0 where
  pub peer : PeerResource
  pub found : find_peer peers target ≡ some peer
  pub member : (issuer ≡ peer.local_identity) ⊎ (issuer ≡ peer.remote_identity)
  pub selected : (policy.match_all_ready ≡ true) ⊎ In target policy.match_names

-- The policy has no quota, or it is negative, or the number is not above it.
abbrev pub IsWithin : Policy → ℕ → Type 0
IsWithin policy count =
    (policy.max_advertisements ≡ none)
    ⊎ ((maximum : ℤ) × (policy.max_advertisements ≡ some maximum)
        × ((maximum <ℤ pos 0) ⊎ (pos count ≤ℤ maximum)))

-- The policy that the service names allows its contract and the target peers, which are those that the
-- service lists or, for a wildcard, some that the policy opens to all.
pub record IsAllowed (issuer : Text) (count : ℕ) (policies : Dict.Dict Policy)
    (peers : List PeerResource) (v : AdvertisedService) (targets : List Text) : Type 0 where
  pub policy : Policy
  pub found : Dict.get policies v.policy_ref ≡ some policy
  pub within : IsWithin policy count
  pub class : In v.service_class policy.service_classes
  pub protocol : In v.protocol policy.protocols
  pub exported : In (codes "export") policy.directions
  pub port : (policy.ports ≡ []) ⊎ In (some v.port) policy.ports
  pub members : All (IsTarget policy issuer peers) targets
  pub requested : (targets ≡ v.target_peers) ⊎ (policy.match_all_ready ≡ true)

contains-In : (values : List Text) (t : Text) → contains_string values t ≡ true → In t values
unfolding contains_string
contains-In [] t h = absurd (ground (arith, h))
contains-In (value ∷ values) t h = elim (Bool-cases (value == t)) [
  | inl same ↦ inl (sym ((eq_iff value t).0 same))
  | inr other ↦ inr (contains-In values t (ground (arith, h, other)))
]

port_in-In : (values : List (Option ℤ)) (p : ℤ) → port_in values p ≡ true → In (some p) values
unfolding port_in
port_in-In [] p h = absurd (ground (arith, h))
port_in-In (none ∷ values) p h = inr (port_in-In values p h)
port_in-In (some value ∷ values) p h = elim (Bool-cases (eqb_ℤ value p)) [
  | inl same ↦ inl (ap some (sym ((eqb_ℤ_iff value p).0 same)))
  | inr other ↦ inr (port_in-In values p (ground (arith, h, other)))
]

port_allowed-In :
    (ports : List (Option ℤ)) (policy : Policy) (p : ℤ)
    → policy.ports ≡ ports
    → port_allowed policy p ≡ true
    → (policy.ports ≡ []) ⊎ In (some p) policy.ports
unfolding port_allowed
port_allowed-In [] policy p e h = inl e
port_allowed-In (q ∷ qs) policy p e h = inr (rw e (port_in-In (q ∷ qs) p (ground (arith, e, h))))

pub read_found : {V : Type 0} (b : Bool) (o : Option V) (v : V) → read b o ≡ some v → o ≡ some v
unfolding read
read_found b o v h = ground (arith, h)

member_cases :
    (peer : PeerResource) (issuer : Text)
    → is_member peer issuer ≡ true
    → (issuer ≡ peer.local_identity) ⊎ (issuer ≡ peer.remote_identity)
unfolding is_member
member_cases peer issuer h = elim (Bool-cases (issuer == peer.local_identity)) [
  | inl local ↦ inl ((eq_iff issuer peer.local_identity).0 local)
  | inr other ↦ inr ((eq_iff issuer peer.remote_identity).0 (ground (arith, h, other)))
]

selected_cases :
    (policy : Policy) (t : Text)
    → not policy.match_all_ready && not (contains_string policy.match_names t) ≡ false
    → (policy.match_all_ready ≡ true) ⊎ In t policy.match_names
selected_cases policy t h = elim (Bool-cases policy.match_all_ready) [
  | inl all ↦ inl all
  | inr some_only ↦ inr (contains-In policy.match_names t (ground (arith, h, some_only)))
]

module _ (answers : Answers) (issuer : Text) (policy : Policy) (peers : List PeerResource) where
  check_target-IsTarget :
      (ref t : Text)
      → check_target answers issuer policy ref peers t ≡ ok tt
      → IsTarget policy issuer peers t
  unfolding check_target
  check_target-IsTarget ref t h =
      let selects = not policy.match_all_ready && not (contains_string policy.match_names t) in
      let seen = read (answers.reads Namespace.peer t) (find_peer peers t) in
      elim (Bool-cases selects) [
        | inl denied ↦ absurd (ground (arith, h, denied))
        | inr allowed ↦ elim (Option-cases seen) [
          | inl missing ↦ absurd (ground (arith, h, allowed, missing))
          | inr (peer, e) ↦ record {
            peer = peer;
            found = read_found (answers.reads Namespace.peer t) (find_peer peers t) peer e;
            member = member_cases peer issuer (ground (arith, h, allowed, e));
            selected = selected_cases policy t allowed;
          }
        ]
      ]

  check_targets-IsTarget :
      (ref : Text) (ts : List Text)
      → check_targets answers issuer policy ref peers ts ≡ ok tt
      → All (IsTarget policy issuer peers) ts
  unfolding check_targets
  check_targets-IsTarget ref [] h = tt
  check_targets-IsTarget ref (t ∷ ts) h = (
    check_target-IsTarget ref t (ground (arith, h)),
    check_targets-IsTarget ref ts (ground (arith, h)),
  )

  contract_facts :
      (v : AdvertisedService) (asked targets : List Text)
      → check_contract answers issuer policy v peers asked ≡ ok targets
      → (asked ≡ targets)
        × (contract_allowed policy v ≡ true)
        × (check_targets answers issuer policy v.policy_ref peers asked ≡ ok tt)
  unfolding check_contract
  contract_facts v asked targets h = ground (arith, h)

  requested_cases :
      (v : AdvertisedService) (targets : List Text)
      → resolve_targets answers issuer policy v peers ≡ ok targets
      → (targets ≡ v.target_peers) ⊎ (policy.match_all_ready ≡ true)
  unfolding resolve_targets
  requested_cases v targets h = elim (Bool-cases policy.match_all_ready) [
    | inl all ↦ inr all
    | inr some_only ↦ inl (ground (arith, h, some_only))
  ]

  policy_facts :
      (count : ℕ) (v : AdvertisedService) (r : Result (List Text)) (targets : List Text)
      → resolve_targets answers issuer policy v peers ≡ r
      → check_policy answers issuer count v peers policy ≡ ok targets
      → (exceeds policy count ≡ false)
        × (asked : List Text) × (r ≡ ok asked)
        × (check_contract answers issuer policy v peers asked ≡ ok targets)
  unfolding check_policy
  policy_facts count v (ok asked) targets e h =
      (ground (arith, h, e), asked, refl, ground (arith, h, e))
  policy_facts count v (err x) targets e h = absurd (ground (arith, h, e))

exceeds-IsWithin :
    (policy : Policy) (count : ℕ) (o : Option ℤ)
    → policy.max_advertisements ≡ o
    → exceeds policy count ≡ false
    → IsWithin policy count
unfolding exceeds
exceeds-IsWithin policy count none e h = inl e
exceeds-IsWithin policy count (some maximum) e h =
    let negative = ltb_ℤ_iff maximum (pos 0) in
    let below = ltb_ℤ_iff maximum (pos count) in
    inr (
      maximum,
      e,
      elim (Bool-cases (ltb_ℤ maximum (pos 0))) [
        | inl n ↦ inl (negative.0 n)
        | inr n ↦ inr (ground (arith, e, h, n, below))
      ],
    )

contract_parts :
    (policy : Policy) (v : AdvertisedService)
    → contract_allowed policy v ≡ true
    → (contains_string policy.service_classes v.service_class ≡ true)
      × (contains_string policy.protocols v.protocol ≡ true)
      × (contains_string policy.directions (codes "export") ≡ true)
      × (port_allowed policy v.port ≡ true)
unfolding contract_allowed
contract_parts policy v h = ground (arith, h)

pub check_service-IsAllowed :
    (answers : Answers) (issuer : Text) (count : ℕ) (v : AdvertisedService)
    (space : Namespace.Namespace) (targets : List Text)
    → check_service answers issuer count v space ≡ ok targets
    → IsAllowed issuer count space.policies space.peers v targets
unfolding check_service
check_service-IsAllowed answers issuer count v space targets h =
    let answered = answers.reads Namespace.policy v.policy_ref in
    let seen = read answered (Dict.get space.policies v.policy_ref) in
    elim (Option-cases seen) [
      | inl missing ↦ absurd (ground (arith, h, missing))
      | inr (policy, e) ↦
          let (within, asked, resolved, checked) =
            policy_facts answers issuer policy space.peers count v
              (resolve_targets answers issuer policy v space.peers) targets refl
              (ground (arith, h, e)) in
          let (same, contract, members) =
            contract_facts answers issuer policy space.peers v asked targets checked in
          let (class, protocol, exported, port) = contract_parts policy v contract in
          record {
            policy = policy;
            found = read_found answered (Dict.get space.policies v.policy_ref) policy e;
            within = exceeds-IsWithin policy count policy.max_advertisements refl within;
            class = contains-In policy.service_classes v.service_class class;
            protocol = contains-In policy.protocols v.protocol protocol;
            exported = contains-In policy.directions (codes "export") exported;
            port = port_allowed-In policy.ports policy v.port refl port;
            members = subst (All (IsTarget policy issuer space.peers)) same (
                check_targets-IsTarget answers issuer policy space.peers v.policy_ref asked
                  members);
            requested =
                subst (λ l. (l ≡ v.target_peers) ⊎ (policy.match_all_ready ≡ true)) same
                  (requested_cases answers issuer policy space.peers v asked resolved);
          }
    ]
