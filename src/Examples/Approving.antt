-- ===== src/Examples/Approving.antt =====
-- The agent and a grant that the customer has approved.
use among_clusters.Prelude.{◌≡◌, refl, true, false, some, [], ◌∷◌, arith}
use among_clusters.Prelude.Int.{pos, ◌<ℤ◌, ltb_ℤ, ◌-ℤ◌, ◌+ℤ◌}
use among_clusters.Text.{codes, ◌==◌, is_empty, to_lower, trim_dash}
use among_clusters.Time.{before, sub}
use among_clusters.Dict
use among_clusters.Model.{GrantInstruction}
use among_clusters.Result.{ok, invalid_claim}
use among_clusters.Agent
use among_clusters.Agent.Access
use among_clusters.Agent.Access.{Cluster, Outside, reconcile_grant}
use among_clusters.Agent.Access.Approval.{Course, reconcile_grant-Course}
use among_clusters.Examples.Fixtures.{noon, later_that_day}

abbrev instruction : GrantInstruction
instruction = record {
  name = codes "G1";
  tenant = codes "acme";
  peer_ref = codes "pair";
  advertisement_ref = codes "api";
  generation = pos 12;
  scope = codes "Namespaced";
  namespaces = codes "apps" ∷ [];
  rules = [];
  expires_at = pos 63000003600000000000;
  revoked = false;
  proxy_url = codes "https://api-pair.acme.svc.cluster.local:6443";
}

abbrev outside : Outside
outside = record {
  reads = λ kind name. true;
  writes = λ kind name. true;
  failure = invalid_claim;
  create_token =
      λ account seconds. ok (record { token = codes "token"; expires_at = later_that_day });
  upload = λ grant payload. ok tt;
  revoke = λ grant. ok tt;
  tls_server_name = codes "kubernetes.default.svc";
}

abbrev approved_cluster : Cluster
approved_cluster = record {
  accounts = Dict.empty;
  roles = Dict.empty;
  role_bindings = Dict.empty;
  cluster_roles = Dict.empty;
  cluster_role_bindings = Dict.empty;
  approvals =
      Dict.put Dict.empty (codes "among-clusters-approval-G1")
        (record { grant_ref = codes "G1"; generation = codes "12"; approved = codes "true" });
  root_ca = some (codes "PEM");
}

unfoldable access_code : Unit {0}
unfolding ◌==◌ is_empty to_lower trim_dash before sub ltb_ℤ ◌-ℤ◌ ◌+ℤ◌ Dict.empty Dict.get Dict.put
    Dict.has Agent.format_uint Agent.format_int Access.grant_resource_name Access.role_key
    Access.whole_seconds Access.token_seconds Access.is_approval Access.create_key
    Access.apply_rules Access.grant_namespace Access.grant_namespaces Access.give_access
    Access.give_credential Access.after_access Access.fulfil Access.approval_of
    Access.reconcile_grant
access_code = tt

-- The approved grant gets its role and a token of an hour.
approved_grant : (reconcile_grant outside instruction noon noon approved_cluster).0 ≡ ok tt
unfolding access_code
approved_grant = refl

in_time : noon <ℤ instruction.expires_at
in_time = omega arith

reconcile_grant-Course_example :
    Course outside instruction approved_cluster
      (reconcile_grant outside instruction noon noon approved_cluster)
reconcile_grant-Course_example =
    reconcile_grant-Course outside instruction noon noon approved_cluster refl in_time
