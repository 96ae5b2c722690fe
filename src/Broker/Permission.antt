-- ===== src/Broker/Permission.antt =====
-- Who may use a credential through the proxy, and what a request that is passed on carries.
use among_clusters.Prelude.{
  ◌≡◌, ◌≢◌, ◌⊎◌, true, false, Option, none, some, List, [], ◌∷◌, ◌++◌, arith,
}
use among_clusters.Prelude.Int.{◌<ℤ◌}
use among_clusters.Text.{Text, codes, has_prefix, trim_prefix, split_n}
use among_clusters.Text.Equality.{is_empty_iff}
use among_clusters.Time.{Time}
use among_clusters.Dict.{get}
use among_clusters.Model.{CredentialPayload}
use among_clusters.Credential.{Envelope, opened}
use among_clusters.Broker.{Broker, World, Secret, User, secret_name}
use among_clusters.Broker.Proxy.{Forwarded, authorize_kubernetes_user}

module _ (w : World) (token tenant grant : Text) where
  -- The token is that of an authenticated user whom the local cluster allows to use this very grant.
  pub record IsAllowed : Type 0 where
    pub user : User
    pub has_token : token ≢ []
    pub reviewed : w.token_review token ≡ some user
    pub authenticated : user.authenticated ≡ true
    pub has_name : user.username ≢ []
    pub allowed :
        w.access_review (record {
          user = user.username;
          uid = user.uid;
          groups = user.groups;
          extra = user.extra;
          namespace = tenant;
          verb = codes "use";
          group = codes "peering.re8ch.com";
          resource = codes "managedaccessgrants";
          name = grant;
        })
        ≡ some true

  pub reviewed_user :
      (o : Option User)
      → w.token_review token ≡ o
      → authorize_kubernetes_user w token tenant grant ≡ true
      → IsAllowed
  unfolding authorize_kubernetes_user
  reviewed_user none e h = absurd (ground (arith, e, h))
  reviewed_user (some u) e h =
      let no_token = is_empty_iff token in
      let no_name = is_empty_iff u.username in
      record {
        user = u;
        has_token = λ i. ground (arith, e, h, no_token, i);
        reviewed = e;
        authenticated = ground (arith, e, h);
        has_name = λ i. ground (arith, e, h, no_name, i);
        allowed = ground (arith, e, h);
      }

-- The header is exactly the reference to the grant.
abbrev pub IsReference : Text → Text → Text → Type 0
IsReference provided tenant grant =
    provided ≡ codes "Bearer credential://among-clusters/" ++ (tenant ++ (codes "/" ++ grant))

module _ (path tenant grant onward : Text) where
  -- The path names the grant explicitly, and the path that is passed on is what follows.
  pub record IsExplicit : Type 0 where
    pub prefixed : has_prefix path (codes "/k8s/") ≡ true
    pub rest : List Text
    pub parts : split_n (trim_prefix path (codes "/k8s/")) b'/' 2 ≡ tenant ∷ grant ∷ rest
    pub passed :
        ((rest ≡ []) × (onward ≡ codes "/"))
        ⊎ ((p : Text) × (more : List Text) × (rest ≡ p ∷ more) × (onward ≡ codes "/" ++ p))

-- The path names no grant, and is passed on itself.
pub record IsAtOrigin (path onward : Text) : Type 0 where
  pub unprefixed : has_prefix path (codes "/k8s/") ≡ false
  pub passed : onward ≡ codes "/" ++ trim_prefix path (codes "/")

-- Who may use the grant: on the explicit route whoever knows its reference or is allowed by the cluster,
-- at the origin whoever knows its reference.
abbrev pub MayUse : World → Text → Text → Text → Text → Text → Type 0
MayUse w path provided tenant grant onward =
    (IsExplicit path tenant grant onward
      × (IsReference provided tenant grant
          ⊎ IsAllowed w (trim_prefix provided (codes "Bearer ")) tenant grant))
    ⊎ (IsAtOrigin path onward × IsReference provided tenant grant)

module _ (w : World) (tenant grant : Text) (now : Time) (s t : Broker) (f : Forwarded) where
  -- What a request that is passed on carries.
  pub record IsForwarded : Type 0 where
    pub secret : Secret
    pub envelope : Envelope
    pub payload : CredentialPayload
    pub stored : get s.secrets (secret_name tenant grant) ≡ some secret
    pub parsed : w.unmarshal_envelope secret.envelope_json ≡ some envelope
    pub sealed : w.decrypt envelope ≡ opened payload
    pub live : now <ℤ payload.expires_at
    pub to_target : f.target ≡ payload.server
    pub under_authority : f.certificate_authority ≡ payload.certificate_authority
    pub to_name : f.tls_server_name ≡ payload.tls_server_name
    pub with_token : f.authorization ≡ codes "Bearer " ++ payload.token
    pub unchanged : t ≡ s
