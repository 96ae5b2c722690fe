-- ===== src/Broker/Names.antt =====
-- The names of the broker's Secrets and the references to its credentials.
use among_clusters.Prelude.{◌≡◌, ◌≢◌, sym, ap, ◌∙◌, true, false, some, [], ◌++◌, append_assoc}
use among_clusters.Prelude.Int.{◌<ℤ◌}
use among_clusters.Text.{Text, codes, has_prefix}
use among_clusters.Text.Splitting.{Lacks, append_nonempty}
use among_clusters.Time.{Time}
use among_clusters.Dict.{get}
use among_clusters.Model.{ControlMessage, CredentialPayload}
use among_clusters.Credential.{opened}
use among_clusters.Http.{Response, next}
use among_clusters.Broker.{Broker, World, StoreMeta, store, resource_name, secret_name, reference}
use among_clusters.Broker.Proxy.{proxy}
use among_clusters.Broker.Using.{use_of, stored_facts, proxy_used}

-- The Secret of the tenant `a` and the grant `b-c` is also that of the tenant `a-b` and the grant `c`.
secret_name_shared :
    (a b c : Text) → secret_name a (b ++ (codes "-" ++ c)) ≡ secret_name (a ++ (codes "-" ++ b)) c
unfolding secret_name
secret_name_shared a b c = ap resource_name (sym (append_assoc a (codes "-" ++ b) (codes "-" ++ c)))

module _ (w : World) (m : ControlMessage) (sent later now : Time) (s t : Broker) (r : Response)
    (meta : StoreMeta) (payload : CredentialPayload) (path : Text) where
  -- The Secret of the tenant a with the grant b-c is also that of the tenant a-b with the grant c: a
  -- credential that the broker has stored for the one is used for a request with the reference to the
  -- other, under the conditions under which it is used for its own.
  pub proxy_stored_other :
      (a b c : Text)
      → store w (some m) sent later s ≡ (next r, t)
      → w.unmarshal_store m.payload ≡ some meta
      → w.decrypt meta.envelope ≡ opened payload
      → meta.tenant ≡ a
      → meta.grant_ref ≡ b ++ (codes "-" ++ c)
      → w.unmarshal_envelope (w.marshal_envelope meta.envelope) ≡ some meta.envelope
      → w.reads (secret_name meta.tenant meta.grant_ref) ≡ true
      → w.is_url payload.server ≡ true
      → now <ℤ payload.expires_at
      → Lacks b'/' (a ++ (codes "-" ++ b))
      → c ≢ []
      → Lacks b'/' c
      → has_prefix path (codes "/k8s/") ≡ false
      → proxy w path (codes "Bearer " ++ reference (a ++ (codes "-" ++ b)) c) now t
        ≡ (next (use_of payload path), t)
  proxy_stored_other a b c h parsed sealed tenant grant round readable url live no_slash some_grant
        no_slash_in_grant origin =
      let facts = stored_facts w m sent later now s t r meta payload path h parsed sealed in
      let same : secret_name meta.tenant meta.grant_ref ≡ secret_name (a ++ (codes "-" ++ b)) c =
        ap (λ x. secret_name x meta.grant_ref) tenant
        ∙ ap (secret_name a) grant
        ∙ secret_name_shared a b c in
      proxy_used w (a ++ (codes "-" ++ b)) c meta.envelope payload now t _
        (ap (get t.secrets) (sym same) ∙ facts.secret) round sealed
        (ap w.reads (sym same) ∙ readable) url live path
        (append_nonempty a (codes "-" ++ b) (λ e. absurd cc)) some_grant no_slash no_slash_in_grant
        origin
