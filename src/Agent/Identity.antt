-- ===== src/Agent/Identity.antt =====
-- cmd/agent/main.go: the agent's identity in its Secret (loadIdentity, refreshTLSSecret), the check that it makes
-- of a peer's certificate (driver), and what it reports of a link (observeLink). Certificates are
-- made and read as internal/identity/identity.go does.
pub mod Refresh
pub mod Restart
use among_clusters.Prelude.{
  ℕ, Bool, true, false, not, ◌&&◌, ◌||◌, Option, none, some, List, [], ◌∷◌, nat_eq, length,
  if◌then◌else◌,
}
use among_clusters.Prelude.Int.{ℤ, pos}
use among_clusters.Text.{Text, codes, ◌==◌, is_empty, trim_slash}
use among_clusters.Time.{Time, before, add, seconds}
use among_clusters.Model.{LinkObservation}
use among_clusters.Result.{Result, Error, ok, err, remote}
use among_clusters.Certificates.{
  X509, Entropy, Material, private_key_size, generate, from_private_key, rotate,
}
use among_clusters.Agent.{Agent, LinkTarget, spiffe_id, parse_uint}

-- The data and annotations of the identity's Secret; what is absent is read as empty.
pub record IdentitySecret : Type 0 where
  pub certificate : Text
  pub certificate_key : Text
  pub bundle : Text
  pub private_key : Text
  pub public_key : Text
  pub bundle_digest : Text
  pub generation : Text

module _ (x : X509) where
  -- certificateExpiresBefore
  unfoldable pub certificate_expires_before : Text → Time → Bool
  certificate_expires_before value deadline = elim (x.decode value) [
    | none ↦ true
    | some block ↦ elim (x.parse block.1) [
      | none ↦ true
      | some certificate ↦ before certificate.not_after deadline
    ]
  ]

  -- needsRoot
  unfoldable pub needs_root : IdentitySecret → Time → Bool
  unfolding certificate_expires_before
  needs_root s now = is_empty s.bundle || certificate_expires_before s.bundle (x.add_years 1 now)

  -- needsLeaf
  unfoldable pub needs_leaf : IdentitySecret → Time → Bool
  unfolding certificate_expires_before
  needs_leaf s now =
      is_empty s.certificate
      || (is_empty s.certificate_key
          || certificate_expires_before s.certificate (add now (seconds (pos 7200))))

  -- The Secret with new material; its type and private key stay.
  unfoldable pub with_material : Material → IdentitySecret → IdentitySecret
  with_material m s = record s {
    certificate = m.certificate;
    certificate_key = m.certificate_key;
    bundle = m.bundle;
    public_key = m.public_key;
    bundle_digest = m.bundle_digest;
    generation = if is_empty s.generation then codes "0" else s.generation;
  }

  -- The new material of refreshTLSSecret.
  unfoldable pub new_material : Error → Agent → IdentitySecret → Time → Entropy → Result Material
  unfolding needs_root
  new_material failure a s now e =
      if needs_root s now
      then from_private_key x failure (spiffe_id a) a.key now e
      else rotate x failure (spiffe_id a) a.key s.bundle now e

  -- The end of refreshTLSSecret; `updates` is the API server's error on the Update.
  unfoldable pub update_secret :
      Option Error → IdentitySecret → Result Material → Result (Unit {0}) × IdentitySecret
  unfolding with_material
  update_secret updates s (err e) = (err e, s)
  update_secret none s (ok m) = (ok tt, with_material m s)
  update_secret (some e) s (ok m) = (err e, s)

  -- refreshTLSSecret, with the Secret that the API server then holds.
  unfoldable pub refresh_tls_secret :
      Error
      → Agent
      → Option Error
      → IdentitySecret
      → Time
      → Entropy
      → Result (Unit {0}) × IdentitySecret
  unfolding needs_root needs_leaf new_material update_secret
  refresh_tls_secret failure a updates s now e =
      if not (needs_root s now || (needs_leaf s now || is_empty s.bundle_digest))
      then (ok tt, s)
      else update_secret updates s (new_material failure a s now e)

  -- The Secret of a new agent.
  unfoldable pub new_secret : Material → IdentitySecret
  new_secret m = record {
    certificate = m.certificate;
    certificate_key = m.certificate_key;
    bundle = m.bundle;
    private_key = m.private_key;
    public_key = m.public_key;
    bundle_digest = m.bundle_digest;
    generation = codes "0";
  }

  -- loadIdentity from the Secret on: the agent with its key and its sequence number. The number is read
  -- from the Secret in the process, which has a generation then.
  unfoldable pub load_identity :
      Error → Agent → Option Error → IdentitySecret → Time → Entropy → Result Agent × IdentitySecret
  unfolding refresh_tls_secret
  load_identity failure a updates s now e =
      if not (nat_eq (length s.private_key) private_key_size)
      then (err (remote (codes "invalid identity key")), s)
      else let keyed = record a { key = s.private_key } in
        let refreshed = refresh_tls_secret failure keyed updates s now e in
        elim refreshed.0 [
          | err r ↦ (err r, refreshed.1)
          | ok _ ↦ (ok (record keyed { sequence = parse_uint refreshed.1.generation }), refreshed.1)
        ]

  module _ (failure : Error) (a : Agent) (updates creates : Option Error) (drawn : Option Text)
      (created now : Time) (e f : Entropy) where
    -- loadIdentity, by what Get returns, none where the Secret is not found: the agent, and the Secret if
    -- there is one. `creates` is the API server's error on the Create.
    unfoldable pub load_or_create :
        Result (Option IdentitySecret) → Result Agent × Option IdentitySecret
    unfolding new_secret load_identity
    load_or_create (err r) = (err r, none)
    load_or_create (ok (some s)) =
        let loaded = load_identity failure a updates s now f in (loaded.0, some loaded.1)
    load_or_create (ok none) = elim (generate x failure (spiffe_id a) created drawn e) [
      | err r ↦ (err r, none)
      | ok m ↦ elim creates [
        | some r ↦ (err r, none)
        | none ↦
            let loaded = load_identity failure a updates (new_secret m) now f in
            (loaded.0, some loaded.1)
      ]
    ]

-- The connection's state that VerifyConnection reads: the URIs of the peer's certificates, the first one's
-- first, and whether the first one verifies under the roots.
pub record PeerState : Type 0 where
  pub certificates : List (List Text)
  pub chain : Option Error

-- config.VerifyConnection
unfoldable pub verify_connection : Text → PeerState → Option Error
verify_connection expected state = elim state.certificates [
  | [] ↦ some (remote (codes "peer certificate missing"))
  | uris ∷ _ ↦ elim state.chain [
    | some e ↦ some e
    | none ↦
        let unexpected = some (remote (codes "unexpected peer SPIFFE identity")) in
        elim uris [
          | [] ↦ unexpected
          | uri ∷ more ↦ elim more [
            | [] ↦ if trim_slash uri == trim_slash expected then none else unexpected
            | _ ∷ _ ↦ unexpected
          ]
        ]
  ]
]

-- What Probe returns: whether it failed, and its observation.
pub record Probe : Type 0 where
  pub failed : Bool
  pub ready : Bool
  pub latency_millis : ℤ
  pub observed_at : Time

-- persistentSessionReady, by the status of the gateway's answer, if there is one.
unfoldable pub persistent_session_ready : Option ℕ → Bool
persistent_session_ready none = false
persistent_session_ready (some status) = nat_eq status 204

-- The observation of observeLink: `probed` is none where the driver cannot be made; `started` is the time
-- before the probe, `elapsed` the milliseconds after a failure.
unfoldable pub link_observation : LinkTarget → Time → ℤ → Option Probe → Option ℕ → LinkObservation
unfolding persistent_session_ready
link_observation target started elapsed probed session =
    let failure : Time → LinkObservation = λ at. record {
      link_ref = target.link_ref;
      peer_ref = target.peer_ref;
      ready = false;
      latency_millis = elapsed;
      reason = codes "TransportError";
      last_handshake_at = at;
    } in
    elim probed [
      | none ↦ failure started
      | some p ↦
          let lost = p.ready && not (persistent_session_ready session) in
          if p.failed then failure p.observed_at else record {
            link_ref = target.link_ref;
            peer_ref = target.peer_ref;
            ready = p.ready && not lost;
            latency_millis = p.latency_millis;
            reason = if lost then codes "PersistentSessionUnavailable" else [];
            last_handshake_at = p.observed_at;
          }
    ]
