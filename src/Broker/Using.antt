-- ===== src/Broker/Using.antt =====
-- The credential that the broker has stored is the one that it uses.
use among_clusters.Prelude.{
  ◌≡◌, ◌≢◌, refl, ap, ◌∙◌, subst, true, false, some, List, [], ◌∷◌, ◌++◌, if◌then◌else◌,
}
use among_clusters.Prelude.Int.{◌<ℤ◌}
use among_clusters.Text.{Text, codes, is_empty, has_prefix, trim_prefix}
use among_clusters.Text.Equality.{eq_refl}
use among_clusters.Text.Splitting.{Lacks, has_prefix-append, trim_prefix-append, split_two}
use among_clusters.Time.{Time, before_iff}
use among_clusters.Dict.{get, get-put}
use among_clusters.Model.{ControlMessage, CredentialPayload}
use among_clusters.Credential.{Envelope, opened}
use among_clusters.Http
use among_clusters.Http.{Response, next, http_error, write_json, pure, present, require, ◌>>=◌}
use among_clusters.Broker.{
  Broker, World, StoreMeta, Secret, get_secret, decrypted, store, secret_name, reference,
}
use among_clusters.Broker.Proxy.{
  Forwarded, proxy, proxy_parts, proxy_grant, may_use, kubernetes_proxy_parts, forwarded_path,
  origin_parts, add_path, bearer_prefix,
}
use among_clusters.Broker.Stored.{IsStored, store-IsStored}

-- A request with the token of the credential, to its server.
abbrev pub use_of : CredentialPayload → Text → Forwarded
use_of payload path = record {
  target = payload.server;
  certificate_authority = payload.certificate_authority;
  tls_server_name = payload.tls_server_name;
  path = codes "/" ++ trim_prefix path (codes "/");
  authorization = codes "Bearer " ++ payload.token;
}

module _ (w : World) (tenant grant : Text) (envelope : Envelope) (payload : CredentialPayload)
    (now : Time) (s : Broker) (secret : Secret)
    (stored : get s.secrets (secret_name tenant grant) ≡ some secret)
    (parsed : w.unmarshal_envelope secret.envelope_json ≡ some envelope)
    (sealed : w.decrypt envelope ≡ opened payload)
    (readable : w.reads (secret_name tenant grant) ≡ true) (url : w.is_url payload.server ≡ true)
    (live : now <ℤ payload.expires_at) where
  grant_used :
      (path : List Text)
      → proxy_grant w true (codes "Bearer " ++ reference tenant grant) tenant grant path now s ≡ (
        next (record {
          target = payload.server;
          certificate_authority = payload.certificate_authority;
          tls_server_name = payload.tls_server_name;
          path = forwarded_path path;
          authorization = codes "Bearer " ++ payload.token;
        }),
        s,
      )
  unfolding proxy_grant may_use get_secret decrypted ◌>>=◌ require present pure
  grant_used path =
      rw
        (
          eq_refl (codes "Bearer " ++ reference tenant grant),
          readable,
          stored,
          parsed,
          sealed,
          (before_iff now payload.expires_at).1 live,
          url,
        )
        refl

  parts_used :
      (path rest : Text)
      → rest ≡ trim_prefix path (codes "/")
      → proxy_parts w true
          (codes "Bearer " ++ reference tenant grant)
          (add_path tenant grant rest)
          now
          s
        ≡ (next (use_of payload path), s)
  unfolding is_empty proxy_parts add_path forwarded_path
  parts_used path [] e =
      grant_used [] ∙ ap (λ q. (next (record (use_of payload path) { path = codes "/" ++ q }), s)) e
  parts_used path (c ∷ rest) e =
      grant_used ((c ∷ rest) ∷ [])
      ∙ ap (λ q. (next (record (use_of payload path) { path = codes "/" ++ q }), s)) e

not_empty : (s : Text) → s ≢ [] → is_empty s ≡ false
unfolding is_empty
not_empty [] h = absurd (h refl)
not_empty (c ∷ s) h = refl

origin_parts_of :
    (tenant grant path : Text)
    → tenant ≢ []
    → grant ≢ []
    → Lacks b'/' tenant
    → Lacks b'/' grant
    → has_prefix path (codes "/k8s/") ≡ false
    → kubernetes_proxy_parts path (codes "Bearer " ++ reference tenant grant)
      ≡ (add_path tenant grant (trim_prefix path (codes "/")), true)
unfolding kubernetes_proxy_parts origin_parts reference
origin_parts_of tenant grant path named granted a b origin =
    let after = tenant ++ (codes "/" ++ grant) in
    let no_tenant : is_empty tenant ≡ false = not_empty tenant named in
    let no_grant : is_empty grant ≡ false = not_empty grant granted in
    rw origin (
      rw (has_prefix-append bearer_prefix after) (
        rw (trim_prefix-append bearer_prefix after)
          (rw (split_two b'/' tenant grant a b) (rw no_tenant (rw no_grant refl)))))

module _ (w : World) (tenant grant : Text) (envelope : Envelope) (payload : CredentialPayload)
    (now : Time) (s : Broker) (secret : Secret) where
  pub proxy_used :
      get s.secrets (secret_name tenant grant) ≡ some secret
      → w.unmarshal_envelope secret.envelope_json ≡ some envelope
      → w.decrypt envelope ≡ opened payload
      → w.reads (secret_name tenant grant) ≡ true
      → w.is_url payload.server ≡ true
      → now <ℤ payload.expires_at
      → (path : Text) → tenant ≢ []
      → grant ≢ []
      → Lacks b'/' tenant
      → Lacks b'/' grant
      → has_prefix path (codes "/k8s/") ≡ false
      → proxy w path (codes "Bearer " ++ reference tenant grant) now s
        ≡ (next (use_of payload path), s)
  unfolding proxy
  proxy_used stored parsed sealed readable url live path named granted a b origin =
      rw (origin_parts_of tenant grant path named granted a b origin) (
        parts_used w tenant grant envelope payload now s secret stored parsed sealed readable url
          live path (trim_prefix path (codes "/")) refl)

-- What the broker keeps of a credential that it stored.
pub record IsKept (w : World) (t : Broker) (r : Response) (meta : StoreMeta)
    (payload : CredentialPayload) : Type 0 where
  pub named : meta.tenant ≢ []
  pub granted : meta.grant_ref ≢ []
  pub secret :
      get t.secrets (secret_name meta.tenant meta.grant_ref)
      ≡ some (record {
        envelope_json = w.marshal_envelope meta.envelope;
        expires_at = w.format payload.expires_at;
      })
  pub response : r ≡ write_json 201 (Http.credential_ref (reference meta.tenant meta.grant_ref))

kept :
    (w : World) (m : ControlMessage) (sent later : Time) (s t : Broker) (r : Response)
    (stored : IsStored w m sent later s t r)
    → IsKept w t r stored.meta stored.payload
kept w m sent later s t r stored =
    let name = secret_name stored.meta.tenant stored.meta.grant_ref in
    let secret : Secret = record {
      envelope_json = w.marshal_envelope stored.meta.envelope;
      expires_at = w.format stored.payload.expires_at;
    } in
    record {
      named = stored.named.0;
      granted = stored.named.2;
      secret =
          ap (λ (u : Broker). get u.secrets name) stored.result
          ∙ get-put s.secrets name name secret
          ∙ ap (λ b. if b then some secret else get s.secrets name) (eq_refl name);
      response = stored.response;
    }

module _ (w : World) (m : ControlMessage) (sent later now : Time) (s t : Broker) (r : Response)
    (meta : StoreMeta) (payload : CredentialPayload) (path : Text) where
  pub stored_facts :
      store w (some m) sent later s ≡ (next r, t)
      → w.unmarshal_store m.payload ≡ some meta
      → w.decrypt meta.envelope ≡ opened payload
      → IsKept w t r meta payload
  stored_facts h parsed sealed =
      let (m_sent, is_sent, found) = store-IsStored w (some m) sent later s t r h in
      let same : m_sent ≡ m = cc is_sent in
      let stored = subst (λ x. IsStored w x sent later s t r) same found in
      let same_meta : stored.meta ≡ meta = cc (stored.parsed, parsed) in
      let same_envelope = ap (λ (x : StoreMeta). w.decrypt x.envelope) same_meta in
      let same_payload : stored.payload ≡ payload = cc (stored.sealed, sealed, same_envelope) in
      subst (λ x. IsKept w t r x payload) same_meta
        (subst (λ y. IsKept w t r stored.meta y) same_payload (kept w m sent later s t r stored))

  -- A credential that the broker has stored for a tenant and a grant without slashes is the one that it
  -- uses: the response names the reference, and a request with this reference goes to the
  -- credential's server with its token and the path of the request, up to the credential's expiry, if
  -- the path does not begin with /k8s/, the envelope survives its encoding, the Secret can be read
  -- and the server is a URL.
  pub proxy_stored :
      store w (some m) sent later s ≡ (next r, t)
      → w.unmarshal_store m.payload ≡ some meta
      → w.decrypt meta.envelope ≡ opened payload
      → w.unmarshal_envelope (w.marshal_envelope meta.envelope) ≡ some meta.envelope
      → w.reads (secret_name meta.tenant meta.grant_ref) ≡ true
      → w.is_url payload.server ≡ true
      → now <ℤ payload.expires_at
      → Lacks b'/' meta.tenant
      → Lacks b'/' meta.grant_ref
      → has_prefix path (codes "/k8s/") ≡ false
      → (r ≡ write_json 201 (Http.credential_ref (reference meta.tenant meta.grant_ref)))
        × (proxy w path (codes "Bearer " ++ reference meta.tenant meta.grant_ref) now t
            ≡ (next (use_of payload path), t))
  proxy_stored h parsed sealed round readable url live no_slash no_slash_in_grant origin =
      let facts = stored_facts h parsed sealed in
      (
        facts.response,
        proxy_used w meta.tenant meta.grant_ref meta.envelope payload now t _ facts.secret round
            sealed readable url live path facts.named facts.granted no_slash no_slash_in_grant
            origin,
      )
