-- ===== src/Agent/Access.antt =====
-- cmd/agent/main.go: grantResourceName and reconcileGrant, which give a grant its account, its roles and its
-- credential. Roles and bindings are maps from namespace/name or, for a cluster, from the name.
pub mod Approval
use among_clusters.Prelude.{
  ℕ, ◌+◌, ◌-◌, ◌*◌, ◌/◌, Bool, true, false, not, ◌&&◌, ◌||◌, Option, none, some, List, [], ◌∷◌,
  ◌++◌, take, if◌then◌else◌,
}
use among_clusters.Prelude.Int.{ℤ, pos, negsuc, sub_ℕ, ltb_ℤ}
use among_clusters.Text.{Text, codes, ◌==◌, is_empty, to_lower, trim_dash}
use among_clusters.Time.{Time, Duration, before, sub, nanoseconds_per_second}
use among_clusters.Dict
use among_clusters.Dict.{Dict}
use among_clusters.Model.{AccessRule, GrantInstruction, CredentialPayload}
use among_clusters.Result.{Result, Error, ok, err, remote}
use among_clusters.Agent.{format_int}

-- grantResourceName
unfoldable pub grant_resource_name : Text → Text
grant_resource_name name = trim_dash (take 63 (codes "among-clusters-" ++ to_lower name))

-- The ConfigMap by which the customer approves a grant.
pub record ApprovalMap : Type 0 where
  pub grant_ref : Text
  pub generation : Text
  pub approved : Text

-- %q, for a text of printable ASCII without quotes.
unfoldable pub quoted : Text → Text
quoted text = 34 ∷ (text ++ 34 ∷ [])

-- What the agent writes in its cluster, and the ConfigMaps that it reads in its namespace.
pub record Cluster : Type 0 where
  pub accounts : Dict (Unit {0})
  pub roles : Dict (List AccessRule)
  pub role_bindings : Dict (Unit {0})
  pub cluster_roles : Dict (List AccessRule)
  pub cluster_role_bindings : Dict (Unit {0})
  pub approvals : Dict ApprovalMap
  pub root_ca : Option Text

pub record Token : Type 0 where
  pub token : Text
  pub expires_at : Time

pub data Kind : Type 0 where
  account role role_binding cluster_role cluster_role_binding approval root_ca : Kind

-- The calls that the API server answers, by kind and key, with the error of the others; the token it issues
-- for an account and a number of seconds; and the broker's side of an upload and of a revocation.
pub record Outside : Type 0 where
  pub reads : Kind → Text → Bool
  pub writes : Kind → Text → Bool
  pub failure : Error
  pub create_token : Text → ℤ → Result Token
  pub upload : GrantInstruction → CredentialPayload → Result (Unit {0})
  pub revoke : GrantInstruction → Result (Unit {0})
  pub tls_server_name : Text

unfoldable pub role_key : Text → Text → Text
role_key namespace name = namespace ++ (codes "/" ++ name)

-- int64(d.Seconds()); its exact value up to some months, and above 3600 beyond.
unfoldable pub whole_seconds : Duration → ℤ
whole_seconds (pos n) = pos (n / nanoseconds_per_second)
whole_seconds (negsuc n) = sub_ℕ 0 ((n + 1) / nanoseconds_per_second)

-- The lifetime that is asked for a token.
unfoldable pub token_seconds : Time → Time → ℤ
unfolding whole_seconds
token_seconds expires now =
    let left = whole_seconds (sub expires now) in if ltb_ℤ (pos 3600) left then pos 3600 else left

-- The approval names this grant in this generation.
unfoldable pub is_approval : GrantInstruction → ApprovalMap → Bool
is_approval grant a =
    (a.grant_ref == grant.name)
    && ((a.generation == format_int grant.generation) && (a.approved == codes "true"))

module _ (w : Outside) where
  -- A Delete whose error is ignored.
  unfoldable pub delete_key : {V : Type 0} → Kind → Text → Dict V → Dict V
  delete_key kind key d = if w.writes kind key then Dict.remove d key else d

  -- Create, where an object that exists already is kept.
  unfoldable pub create_key : Kind → Text → Dict (Unit {0}) → Option (Dict (Unit {0}))
  create_key kind key d =
      if not (w.writes kind key)
      then none
      else if Dict.has d key
      then some d
      else some (Dict.put d key tt)

  -- Create of a role or, where it exists already, Get and Update with the rules.
  unfoldable pub apply_rules :
      Kind → Text → List AccessRule → Dict (List AccessRule) → Option (Dict (List AccessRule))
  apply_rules kind key rules d =
      if not (w.writes kind key)
      then none
      else if Dict.has d key && not (w.reads kind key)
      then none
      else some (Dict.put d key rules)

  -- The bindings and roles of a grant in its namespaces are deleted.
  unfoldable pub delete_roles : Text → List Text → Cluster → Cluster
  unfolding role_key delete_key
  delete_roles name [] s = s
  delete_roles name (namespace ∷ namespaces) s = delete_roles name namespaces (record s {
    role_bindings = delete_key role_binding (role_key namespace name) s.role_bindings;
    roles = delete_key role (role_key namespace name) s.roles;
  })

  -- What a grant that is revoked or expired loses.
  unfoldable pub withdraw : GrantInstruction → Cluster → Cluster
  unfolding grant_resource_name delete_roles delete_key
  withdraw grant s =
      let name = grant_resource_name grant.name in
      let t = delete_roles name grant.namespaces (record s {
        cluster_role_bindings = delete_key cluster_role_binding name s.cluster_role_bindings;
        cluster_roles = delete_key cluster_role name s.cluster_roles;
      }) in
      record t { accounts = delete_key account name t.accounts }

  -- The cluster's role and binding of a grant.
  unfoldable pub grant_cluster : Text → List AccessRule → Cluster → Result (Unit {0}) × Cluster
  unfolding apply_rules create_key
  grant_cluster name rules s = elim (apply_rules cluster_role name rules s.cluster_roles) [
    | none ↦ (err w.failure, s)
    | some applied ↦ elim (create_key cluster_role_binding name s.cluster_role_bindings) [
      | none ↦ (err w.failure, record s { cluster_roles = applied })
      | some bound ↦ (ok tt, record s { cluster_roles = applied; cluster_role_bindings = bound })
    ]
  ]

  -- The role and the binding of a grant in one namespace.
  unfoldable pub grant_namespace :
      Text → List AccessRule → Text → Cluster → Result (Unit {0}) × Cluster
  unfolding apply_rules create_key role_key
  grant_namespace name rules namespace s =
      let key = role_key namespace name in
      elim (apply_rules role key rules s.roles) [
        | none ↦ (err w.failure, s)
        | some applied ↦ elim (create_key role_binding key s.role_bindings) [
          | none ↦ (err w.failure, record s { roles = applied })
          | some bound ↦ (ok tt, record s { roles = applied; role_bindings = bound })
        ]
      ]

  unfoldable pub grant_namespaces :
      Text → List AccessRule → List Text → Cluster → Result (Unit {0}) × Cluster
  unfolding grant_namespace
  grant_namespaces name rules [] s = (ok tt, s)
  grant_namespaces name rules (namespace ∷ namespaces) s =
      let first = grant_namespace name rules namespace s in
      let rest = grant_namespaces name rules namespaces first.1 in
      elim first.0 [ ok _ ↦ rest | err e ↦ (err e, first.1) ]

  -- The access of a grant, by its scope; for a cluster, the loop over the namespaces breaks at once.
  unfoldable pub give_access : GrantInstruction → Cluster → Result (Unit {0}) × Cluster
  unfolding grant_resource_name grant_cluster grant_namespaces quoted
  give_access grant s =
      let name = grant_resource_name grant.name in
      if grant.scope == codes "Cluster"
      then grant_cluster name grant.rules s
      else if not (is_empty grant.scope) && not (grant.scope == codes "Namespaced")
      then (err (remote (codes "unsupported grant scope " ++ quoted grant.scope)), s)
      else grant_namespaces name grant.rules grant.namespaces s

  -- The end of reconcileGrant, from the token on.
  unfoldable pub give_credential : GrantInstruction → Time → Cluster → Result (Unit {0})
  unfolding grant_resource_name token_seconds
  give_credential grant now s =
      let left = token_seconds grant.expires_at now in
      if ltb_ℤ left (pos 600)
      then err (remote (codes "grant expires too soon"))
      else elim (w.create_token (grant_resource_name grant.name) left) [
        | err e ↦ err e
        | ok token ↦ elim s.root_ca [
          | none ↦ err w.failure
          | some ca ↦
              if not (w.reads root_ca (codes "kube-root-ca.crt"))
              then err w.failure
              else w.upload grant (record {
                token = token.token;
                certificate_authority = ca;
                server = grant.proxy_url;
                tls_server_name = w.tls_server_name;
                expires_at = token.expires_at;
              })
        ]
      ]

  unfoldable pub after_access :
      GrantInstruction → Time → Result (Unit {0}) × Cluster → Result (Unit {0}) × Cluster
  unfolding give_credential
  after_access grant now (ok _, s) = (give_credential grant now s, s)
  after_access grant now (err e, s) = (err e, s)

  -- A grant that the customer has approved.
  unfoldable pub fulfil : GrantInstruction → Time → Cluster → Result (Unit {0}) × Cluster
  unfolding grant_resource_name create_key give_access after_access
  fulfil grant later s = elim (create_key account (grant_resource_name grant.name) s.accounts) [
    | none ↦ (err w.failure, s)
    | some accounts ↦
        after_access grant later (give_access grant (record s { accounts = accounts }))
  ]

  -- The approval that a Get yields.
  unfoldable pub approval_of : GrantInstruction → Cluster → Option ApprovalMap
  approval_of grant s =
      let name = codes "among-clusters-approval-" ++ grant.name in
      if w.reads approval name then Dict.get s.approvals name else none

  -- reconcileGrant, with the times of its two readings of the clock.
  unfoldable pub reconcile_grant :
      GrantInstruction → Time → Time → Cluster → Result (Unit {0}) × Cluster
  unfolding withdraw approval_of is_approval fulfil
  reconcile_grant grant now later s =
      if grant.revoked || not (before now grant.expires_at)
      then (w.revoke grant, withdraw grant s)
      else elim (approval_of grant s) [
        | none ↦ (err (remote (codes "local customer approval required")), s)
        | some a ↦
            if not (is_approval grant a)
            then (err (remote (codes "local customer approval invalid")), s)
            else fulfil grant later s
      ]
