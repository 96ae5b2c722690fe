-- ===== src/Examples/Publishing.antt =====
-- A publisher's sync and its grants in a concrete namespace.
use among_clusters.Prelude.{◌≡◌, refl, sym, subst, inl, inr, true, false, some, none, [], ◌∷◌}
use among_clusters.Prelude.Int.{pos, ltb_ℤ, eqb_ℤ}
use among_clusters.Text.{codes, ◌==◌, is_empty, has_prefix, to_lower, dashes, trim_dash}
use among_clusters.Dict
use among_clusters.Dict.{Dict}
use among_clusters.Model.{AdvertisedService, GrantInstruction, GrantFulfillment}
use among_clusters.Result.{ok}
use among_clusters.Reconciler.{Rfc3339}
use among_clusters.Kubernetes.Namespace
use among_clusters.Kubernetes.Namespace.{
  Policy, PeerResource, ServiceAdvertisement, AccessGrant, Answers, find_grant,
}
use among_clusters.Kubernetes.Advertising
use among_clusters.Kubernetes.Advertising.Names
use among_clusters.Kubernetes.Publishing
use among_clusters.Kubernetes.Publishing.{sync_advertisements}
use among_clusters.Kubernetes.Grants
use among_clusters.Kubernetes.Grants.{pending_grants, fulfill_grant}
use among_clusters.Kubernetes.Grants.Fulfilled.{IsNamed, fulfill_grant-pending_grants}
use among_clusters.Examples.Fixtures.{alpha, noon, later_that_day}

abbrev layout : Rfc3339
layout = record { parse = λ t. some later_that_day; format = λ t. codes "later" }

abbrev answers : Answers
answers = record {
  reads = λ kind name. true;
  lists = λ kind. true;
  writes = λ kind name. true;
  failure = codes "unavailable";
}

abbrev service : AdvertisedService
service = record {
  name = codes "API";
  namespace = codes "default";
  service_class = codes "internal";
  protocol = codes "kubernetes-api";
  port = pos 6443;
  target_peers = codes "*" ∷ [];
  ttl_seconds = pos 60;
  policy_ref = codes "open";
  generation = pos 1;
  gateway_target = [];
}

abbrev policy : Policy
policy = record {
  service_classes = codes "internal" ∷ [];
  protocols = codes "https" ∷ codes "kubernetes-api" ∷ [];
  ports = none ∷ some (pos 6443) ∷ [];
  directions = codes "import" ∷ codes "export" ∷ [];
  max_advertisements = some (pos 1);
  match_names = [];
  match_all_ready = true;
}

abbrev pair : PeerResource
pair = record {
  name = codes "pair";
  state = codes "Ready";
  suspended = false;
  local_identity = codes "beta";
  remote_identity = codes "alpha";
}

-- An advertisement that the publisher no longer lists.
abbrev stale : ServiceAdvertisement
stale = record {
  publisher = codes "alpha";
  last_published_at = codes "later";
  publisher_ref = codes "alpha";
  service_identity = [];
  service_class = codes "internal";
  protocol = codes "https";
  port = pos 443;
  local_service = codes "old";
  gateway_endpoints = [];
  target_peers = [];
  ttl_seconds = pos 60;
  generation = pos 1;
  policy_ref = codes "open";
  revoked = false;
}

abbrev grant : AccessGrant
grant = record {
  name = codes "g1";
  generation = pos 1;
  approved = true;
  revoked = false;
  expires_at = codes "later";
  advertisement_ref = codes "alpha-default-api";
  peer_ref = codes "pair";
  scope = [];
  namespaces = [];
  rules = none ∷ [];
  credential_ref = [];
  last_renewed_at = [];
  state = codes "Approved";
}

abbrev space : Namespace.Namespace
space = record {
  identities = Dict.put Dict.empty (codes "alpha") alpha;
  policies = Dict.put Dict.empty (codes "open") policy;
  peers = pair ∷ [];
  advertisements = Dict.put Dict.empty (codes "alpha-default-old") stale;
  imports = Dict.empty;
  grants = grant ∷ [];
  links = Dict.empty;
}

abbrev synced : Namespace.Namespace
synced = (sync_advertisements answers layout (codes "alpha") (service ∷ []) noon space).1

abbrev published : ServiceAdvertisement
published =
    Advertising.advertisement_of layout noon (codes "alpha") alpha service (codes "pair" ∷ [])

unfoldable sync_code : Unit {0}
unfolding ◌==◌ is_empty has_prefix to_lower dashes trim_dash ltb_ℤ eqb_ℤ Dict.empty Dict.get
    Dict.put Dict.has Dict.map Namespace.contains_string Namespace.find_peer Namespace.find_grant
    Namespace.put_grant Namespace.read Advertising.is_invalid Advertising.exceeds
    Advertising.is_wildcard Advertising.is_member Advertising.ready_peers Advertising.port_in
    Advertising.port_allowed Advertising.contract_allowed Advertising.resolve_targets
    Advertising.check_target Advertising.check_targets Advertising.check_contract
    Advertising.check_policy Advertising.check_service Advertising.advertisement_of
    Names.advertisement_name Names.import_name Names.fnv32a Names.import_port Names.text_le
    Names.insert_text Names.sort_texts Publishing.put_advertisement Publishing.create_import
    Publishing.create_imports Publishing.withdraw Publishing.publish_service Publishing.sync_service
    Publishing.sync_services Publishing.revoke_rest Publishing.after_services
    Publishing.sync_advertisements Grants.access_rules Grants.proxy_url Grants.instruction_of
    Grants.advertisement_at Grants.is_own_api Grants.pending_grant Grants.collect_grants
    Grants.pending_grants Grants.renewed Grants.fulfill_found Grants.fulfill_grant
sync_code = tt

revokes :
    Dict.get synced.advertisements (codes "alpha-default-old")
    ≡ some (record stale { revoked = true })
unfolding sync_code
revokes = refl

abbrev instruction : GrantInstruction
instruction = Grants.instruction_of (codes "acme") later_that_day grant

gives : pending_grants answers layout (codes "acme") (codes "alpha") synced ≡ ok (instruction ∷ [])
unfolding sync_code
gives = refl

grants-IsNamed : IsNamed synced.grants
unfolding sync_code IsNamed
grants-IsNamed g (inl same) =
    subst (λ (h : AccessGrant). find_grant (grant ∷ []) h.name ≡ some h) (sym same) refl
grants-IsNamed g (inr m) = absurd m

abbrev report : GrantFulfillment
report = record {
  grant_ref = codes "g1";
  credential_ref = codes "credential://among-clusters/acme/g1";
  renewed_at = noon;
}

reports_it : report.grant_ref ≡ instruction.name
unfolding sync_code
reports_it = refl

of_the_broker : has_prefix report.credential_ref (codes "credential://among-clusters/") ≡ true
unfolding sync_code
of_the_broker = refl

fulfill_grant-pending_grants_example :
    (t : Namespace.Namespace) × (g : AccessGrant) × (fulfill_grant answers layout
        (codes "acme")
        (codes "alpha")
        report
        synced
      ≡ (ok tt, t))
    × (find_grant t.grants instruction.name ≡ some g)
    × (g.credential_ref ≡ report.credential_ref)
    × (g.state ≡ codes "Active")
fulfill_grant-pending_grants_example =
    fulfill_grant-pending_grants answers layout (codes "acme") (codes "alpha") synced
      (instruction ∷ []) instruction report grants-IsNamed gives (inl refl) reports_it of_the_broker
      refl refl
