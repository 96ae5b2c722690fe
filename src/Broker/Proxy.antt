-- ===== src/Broker/Proxy.antt =====
-- cmd/broker/main.go: the proxy (kubernetesProxyParts, authorizeKubernetesUser, proxy). The outcome is a
-- response or the request that is passed on.
use among_clusters.Prelude.{
  Bool, true, false, not, ◌||◌, none, some, List, [], ◌∷◌, ◌++◌, if◌then◌else◌,
}
use among_clusters.Text.{Text, codes, ◌==◌, is_empty, has_prefix, trim_prefix, split, split_n}
use among_clusters.Time.{Time, before}
use among_clusters.Http.{Action, done, http_error, pure, present, require, ◌>>=◌, ◌>>◌}
use among_clusters.Broker.{Broker, World, get_secret, decrypted, secret_name, reference, not_found}

module _ (w : World) where
  -- authorizeKubernetesUser
  unfoldable pub authorize_kubernetes_user : Text → Text → Text → Bool
  authorize_kubernetes_user token tenant grant =
      if is_empty token then false else elim (w.token_review token) [
        | none ↦ false
        | some u ↦
            if not u.authenticated || is_empty u.username
            then false
            else elim (w.access_review (record {
              user = u.username;
              uid = u.uid;
              groups = u.groups;
              extra = u.extra;
              namespace = tenant;
              verb = codes "use";
              group = codes "peering.re8ch.com";
              resource = codes "managedaccessgrants";
              name = grant;
            })) [ none ↦ false | some allowed ↦ allowed ]
      ]

abbrev pub bearer_prefix : Text
bearer_prefix = codes "Bearer credential://among-clusters/"

unfoldable pub add_path : Text → Text → Text → List Text
add_path tenant grant path =
    if is_empty path then tenant ∷ grant ∷ [] else tenant ∷ grant ∷ path ∷ []

-- The two parts of the reference, if it has two and neither is empty, with the path.
unfoldable pub origin_parts : List Text → Text → List Text
origin_parts [] path = []
origin_parts (tenant ∷ []) path = []
origin_parts (tenant ∷ grant ∷ []) path =
    if is_empty tenant || is_empty grant
    then []
    else add_path tenant grant (trim_prefix path (codes "/"))
origin_parts (tenant ∷ grant ∷ other ∷ l) path = []

-- kubernetesProxyParts of the path and the Authorization header.
unfoldable pub kubernetes_proxy_parts : Text → Text → List Text × Bool
kubernetes_proxy_parts path provided =
    if has_prefix path (codes "/k8s/")
    then (split_n (trim_prefix path (codes "/k8s/")) b'/' 2, false)
    else if not (has_prefix provided bearer_prefix)
    then ([], true)
    else (origin_parts (split (trim_prefix provided bearer_prefix) b'/') path, true)

-- The request that the proxy passes on: the target, the path and the Authorization header.
pub record Forwarded : Type 0 where
  pub target : Text
  pub certificate_authority : Text
  pub tls_server_name : Text
  pub path : Text
  pub authorization : Text

unfoldable pub forwarded_path : List Text → Text
forwarded_path [] = codes "/"
forwarded_path (path ∷ l) = codes "/" ++ path

module _ (w : World) where
  unfoldable pub may_use : Bool → Text → Text → Text → Bool
  may_use opaque provided tenant grant =
      (provided == codes "Bearer " ++ reference tenant grant)
      || not (
          opaque
          || not
              (authorize_kubernetes_user w (trim_prefix provided (codes "Bearer ")) tenant grant))

  unfoldable pub proxy_grant :
      Bool → Text → Text → Text → List Text → Time → Action Broker Forwarded
  proxy_grant opaque provided tenant grant path now = do
    require (may_use opaque provided tenant grant)
        (http_error 401 (codes "opaque credential reference required"))
    secret ← get_secret w (secret_name tenant grant)
    let expired = http_error 403 (codes "credential expired")
    envelope ← present (w.unmarshal_envelope secret.envelope_json) expired
    payload ← decrypted (w.decrypt envelope) expired
    require (before now payload.expires_at) expired
    require (w.is_url payload.server) (http_error 500 (codes "invalid target"))
    pure (record {
      target = payload.server;
      certificate_authority = payload.certificate_authority;
      tls_server_name = payload.tls_server_name;
      path = forwarded_path path;
      authorization = codes "Bearer " ++ payload.token;
    })

  unfoldable pub proxy_parts : Bool → Text → List Text → Time → Action Broker Forwarded
  proxy_parts opaque provided [] now s = (done not_found, s)
  proxy_parts opaque provided (tenant ∷ []) now s = (done not_found, s)
  proxy_parts opaque provided (tenant ∷ grant ∷ path) now s =
      proxy_grant opaque provided tenant grant path now s

  -- proxy, for a request with the path and the Authorization header.
  unfoldable pub proxy : Text → Text → Time → Action Broker Forwarded
  proxy path provided now =
      let parts = kubernetes_proxy_parts path provided in proxy_parts parts.1 provided parts.0 now
