-- ===== src/Broker.antt =====
-- cmd/broker/main.go: the credential broker. Its state are the generations it keeps in memory and the
-- Secrets of its namespace; requests come one at a time. The record World holds what it takes from
-- elsewhere: the Hub's answers to its identity lookups, the JSON decoders, the sealed envelopes, the
-- reviews of the local API server, and time.Format. Loading the key pair at the start, the routes and
-- the reverse proxy's own work are not modelled: the outcome of a proxy request is a response or the
-- request that is passed on.
pub mod Names
pub mod Proxy
pub mod Authorized
pub mod Stored
pub mod Generations
pub mod Proxying
pub mod Permission
pub mod Using
use among_clusters.Prelude.{
  ℕ, Bool, true, false, not, ◌&&◌, ◌||◌, Option, none, some, List, [], ◌∷◌, ◌++◌, take,
  if◌then◌else◌,
}
use among_clusters.Text.{
  Text, codes, ◌==◌, is_empty, has_prefix, trim_prefix, dashes, to_lower, trim_dash, split, split_n,
}
use among_clusters.Time.{Time, before}
use among_clusters.Dict
use among_clusters.Dict.{Dict, get, put, remove, has}
use among_clusters.Model.{ControlMessage, IdentityRegistration, CredentialPayload}
use among_clusters.Crypto.{Crypto}
use among_clusters.Protocol.{VerifyError, verify}
use among_clusters.Credential.{Envelope, Decryption, opened, failed, panics}
use among_clusters.Http
use among_clusters.Http.{
  Response, Outcome, Action, done, next, http_error, write_json, pure, present, require, ◌>>=◌,
  ◌>>◌,
}

-- The payload of credential.store, and of credential.revoke (without the envelope).
pub record StoreMeta : Type 0 where
  pub tenant : Text
  pub cluster_id : Text
  pub grant_ref : Text
  pub envelope : Envelope

pub record RevokeMeta : Type 0 where
  pub tenant : Text
  pub cluster_id : Text
  pub grant_ref : Text

-- The data of a Secret under envelope.json, and its annotation of the expiry.
pub record Secret : Type 0 where
  pub envelope_json : Text
  pub expires_at : Text

pub record Broker : Type 0 where
  pub generations : Dict ℕ
  pub secrets : Dict Secret

-- The status of a TokenReview.
pub record User : Type 0 where
  pub authenticated : Bool
  pub username : Text
  pub uid : Text
  pub groups : List Text
  pub extra : List (Text × List Text)

-- The spec of a SubjectAccessReview.
pub record Access : Type 0 where
  pub user : Text
  pub uid : Text
  pub groups : List Text
  pub extra : List (Text × List Text)
  pub namespace : Text
  pub verb : Text
  pub group : Text
  pub resource : Text
  pub name : Text

pub record World : Type 0 where
  pub crypto : Crypto
  -- b.identity(ctx, tenant, id); none is an error
  pub identity : Text → Text → Option IdentityRegistration
  pub unmarshal_store : Text → Option StoreMeta
  pub unmarshal_revoke : Text → Option RevokeMeta
  pub marshal_envelope : Envelope → Text
  pub unmarshal_envelope : Text → Option Envelope
  -- credential.Decrypt under the broker's private key
  pub decrypt : Envelope → Decryption CredentialPayload
  -- t.UTC().Format(time.RFC3339)
  pub format : Time → Text
  -- the reviews; none is an error
  pub token_review : Text → Option User
  pub access_review : Access → Option Bool
  -- url.Parse accepts the text
  pub is_url : Text → Bool
  -- does the API server answer a read, an update and a creation, and a deletion of this name?
  pub reads : Text → Bool
  pub writes : Text → Bool
  pub deletes : Text → Bool

-- resourceName
unfoldable pub resource_name : Text → Text
resource_name v = trim_dash (take 63 (to_lower (dashes v)))

-- resourceName(tenant + "-" + grant)
unfoldable pub secret_name : Text → Text → Text
secret_name tenant grant = resource_name (tenant ++ (codes "-" ++ grant))

-- "credential://among-clusters/" + tenant + "/" + grant
unfoldable pub reference : Text → Text → Text
reference tenant grant = codes "credential://among-clusters/" ++ (tenant ++ (codes "/" ++ grant))

-- A handler that panics: net/http cuts the connection, which status 0 stands for.
abbrev pub aborted : Response
aborted = record { status = 0; generation = none; body = Http.empty }

-- credential.Decrypt(...) != nil || unusable
unfoldable pub decrypted : Decryption CredentialPayload → Response → Action Broker CredentialPayload
decrypted (opened v) r s = (next v, s)
decrypted failed r s = (done r, s)
decrypted panics r s = (done aborted, s)

-- protocol.Verify(...) == nil
unfoldable pub passes : Option VerifyError → Bool
passes none = true
passes (some e) = false

-- b.generations[id], which is 0 where the key is missing.
unfoldable pub last_generation : Broker → Text → ℕ
last_generation s id = elim (get s.generations id) [ none ↦ 0 | some g ↦ g ]

unfoldable pub read_generation : Text → Action Broker ℕ
read_generation id s = (next (last_generation s id), s)

-- b.generations[id] = g
unfoldable pub set_generation : Text → ℕ → Action Broker (Unit {0})
set_generation id g s = (next tt, record s { generations = put s.generations id g })

-- http.NotFound
abbrev pub not_found : Response
not_found = http_error 404 (codes "404 page not found")

module _ (w : World) where
  -- A Get that succeeds is followed by an Update, every other by a Create, which fails on a name that
  -- is taken.
  unfoldable pub can_write : Broker → Text → Bool
  can_write s name = w.writes name && (w.reads name || not (has s.secrets name))

  unfoldable pub write_secret : Text → Secret → Action Broker (Unit {0})
  write_secret name secret s =
      if can_write s name
      then (next tt, record s { secrets = put s.secrets name secret })
      else (done (http_error 500 (codes "store failed")), s)

  unfoldable pub delete_secret : Text → Action Broker (Unit {0})
  delete_secret name s =
      if not (w.deletes name)
      then (done (http_error 500 (codes "revoke failed")), s)
      else if has s.secrets name
      then (next tt, record s { secrets = remove s.secrets name })
      else (done not_found, s)

  unfoldable pub get_secret : Text → Action Broker Secret
  get_secret name s =
      present (if w.reads name then get s.secrets name else none)
        (http_error 403 (codes "credential unavailable")) s

  -- Who may have sent the message: its issuer is the identity, its type the one that is expected, and
  -- it verifies under the identity's key.
  unfoldable pub is_authorized :
      ControlMessage → IdentityRegistration → Text → Text → Time → ℕ → Bool
  is_authorized m v type key now last =
      (m.issuer == v.spiffe_id)
      && ((m.type == type)
          && passes (verify w.crypto m key (codes "credential-broker") now last none))

  -- store; `now` and `later` are the two readings of the clock.
  unfoldable pub store : Option ControlMessage → Time → Time → Action Broker Response
  store body now later = do
    let invalid = http_error 400 (codes "invalid payload")
    m ← present body (http_error 400 (codes "invalid message"))
    meta ← present (w.unmarshal_store m.payload) invalid
    require (not (is_empty meta.tenant || (is_empty meta.cluster_id || is_empty meta.grant_ref)))
        invalid
    v ← present (w.identity meta.tenant meta.cluster_id) (http_error 401 (codes "unknown identity"))
    key ← present (w.crypto.base64_decode v.public_key) (http_error 401 (codes "invalid identity"))
    last ← read_generation v.spiffe_id
    require (is_authorized m v (codes "credential.store") key now last)
        (http_error 401 (codes "unauthorized"))
    payload ← decrypted (w.decrypt meta.envelope) (http_error 400 (codes "invalid credential"))
    require (not (is_empty payload.token || not (before later payload.expires_at)))
        (http_error 400 (codes "invalid credential"))
    write_secret (secret_name meta.tenant meta.grant_ref) (record {
      envelope_json = w.marshal_envelope meta.envelope;
      expires_at = w.format payload.expires_at;
    })
    set_generation v.spiffe_id m.generation
    pure (write_json 201 (Http.credential_ref (reference meta.tenant meta.grant_ref)))

  -- revoke
  unfoldable pub revoke : Option ControlMessage → Time → Action Broker Response
  revoke body now = do
    m ← present body (http_error 400 (codes "invalid message"))
    meta ← present (w.unmarshal_revoke m.payload) (http_error 400 (codes "invalid payload"))
    v ← present (w.identity meta.tenant meta.cluster_id) (http_error 401 (codes "unknown identity"))
    key ← present (w.crypto.base64_decode v.public_key) (http_error 401 (codes "unauthorized"))
    require (is_authorized m v (codes "credential.revoke") key now 0)
        (http_error 401 (codes "unauthorized"))
    delete_secret (secret_name meta.tenant meta.grant_ref)
    pure (write_json 204 Http.empty)
