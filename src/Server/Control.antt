-- ===== src/Server/Control.antt =====
-- controlMessage of internal/api/sovereign_server.go: what the Hub does with a signed message.
pub mod Accepted
use among_clusters.Prelude.{
  ℕ, Bool, true, false, not, ◌&&◌, ◌||◌, Option, none, some, List, [], ◌∷◌, if◌then◌else◌,
}
use among_clusters.Text.{Text, codes, ◌==◌, is_empty, has_prefix}
use among_clusters.Time.{Time}
use among_clusters.Model.{
  ControlMessage, BundleConfirmation, LinkObservation, ServiceSnapshot, GrantSnapshot,
  GrantFulfillment,
}
use among_clusters.Crypto.{Crypto}
use among_clusters.Protocol
use among_clusters.Protocol.{VerifyError, verify}
use among_clusters.Result.{Result, Error, message}
use among_clusters.Http
use among_clusters.Http.{
  Response, Action, http_error, pure, present, call, require, when, ◌>>=◌, ◌>>◌,
}
use among_clusters.Store.{SovereignStore}

-- err.Error() of protocol.Verify, which the handler sends back.
unfoldable pub verify_text : VerifyError → Text
verify_text Protocol.wrong_audience = codes "wrong audience"
verify_text Protocol.missing_identity = codes "missing envelope identity"
verify_text Protocol.replayed_generation = codes "replayed generation"
verify_text Protocol.expired_or_future = codes "expired or future message"
verify_text Protocol.replayed_nonce = codes "replayed nonce"
verify_text Protocol.decode_failed = codes "decode signature"
verify_text Protocol.marshal_failed = codes "marshal"
verify_text Protocol.invalid_signature = codes "invalid signature"

-- if err := protocol.Verify(...); err != nil
unfoldable pub verified : {S : Type 0} → Option VerifyError → Action S (Unit {0})
unfolding verify_text
verified none s = (Http.next tt, s)
verified (some e) s = (Http.done (http_error 401 (verify_text e)), s)

unfoldable pub forbidden : Error → Response
forbidden e = http_error 403 (message e)

-- The response to a message that was recorded.
unfoldable pub processed : ℕ → Option GrantSnapshot → Response
processed generation none = record { status = 202; generation = some generation; body = Http.empty }
processed generation (some grants) = record {
  status = 200;
  generation = some generation;
  body = Http.grants grants;
}

module _ {S : Type 0} (api : SovereignStore S) (c : Crypto) (tenant id : Text) where
  unfoldable pub confirm : ControlMessage → Action S (Unit {0})
  unfolding forbidden
  confirm m = do
    let invalid = http_error 400 (codes "invalid bundle confirmation")
    v ← present (c.unmarshal_confirmation m.payload) invalid
    require (not (is_empty v.peer_ref || is_empty v.bundle_digest)) invalid
    call (api.confirm_peer_bundle tenant id v) forbidden

  unfoldable pub observe : ControlMessage → Action S (Unit {0})
  unfolding forbidden
  observe m = do
    let invalid = http_error 400 (codes "invalid link observation")
    v ← present (c.unmarshal_observation m.payload) invalid
    require (not (is_empty v.link_ref || is_empty v.peer_ref)) invalid
    call (api.observe_link tenant id v) forbidden

  unfoldable pub advertise : ControlMessage → Time → Action S (Unit {0})
  unfolding forbidden
  advertise m now = do
    v ← present (c.unmarshal_snapshot m.payload) (http_error 400 (codes "invalid service snapshot"))
    call (api.sync_advertisements tenant id v.services now) forbidden

  unfoldable pub poll : Time → Action S (Option GrantSnapshot)
  poll now = do
    grants ←
        call (api.pending_grants tenant id now)
          (λ e. http_error 503 (codes "grant state unavailable"))
    pure (some (record { grants = grants }))

  unfoldable pub fulfill : ControlMessage → Action S (Unit {0})
  unfolding forbidden
  fulfill m = do
    let invalid = http_error 400 (codes "invalid grant fulfillment")
    v ← present (c.unmarshal_fulfillment m.payload) invalid
    require (not (is_empty v.grant_ref || is_empty v.credential_ref)) invalid
    call (api.fulfill_grant tenant id v) forbidden

  -- The five tests on the type, in order, each with its effect on the store.
  unfoldable pub dispatch : ControlMessage → Time → Action S (Option GrantSnapshot)
  dispatch m now = do
    when (m.type == codes "peer.bundle.confirm") (confirm m)
    when (m.type == codes "link.observe") (observe m)
    when (m.type == codes "service.snapshot") (advertise m now)
    grants ← if m.type == codes "grant.poll" then poll now else pure none
    when (m.type == codes "grant.fulfilled") (fulfill m)
    pure grants

  -- controlMessage
  unfoldable pub control_message : Option ControlMessage → Time → Time → Action S Response
  unfolding verified processed
  control_message body now later = do
    identity ← call (api.identity tenant id) (λ e. http_error 401 (codes "unknown identity"))
    m ← present body (http_error 400 (codes "invalid message"))
    key ←
        present (c.base64_decode identity.public_key)
          (http_error 500 (codes "invalid identity key"))
    last ← call (api.last_generation tenant id) (λ e. http_error 503 (codes "state unavailable"))
    verified (verify c m key (codes "hub") now last none)
    require (not (not (m.issuer == identity.spiffe_id) || has_prefix m.type (codes "route.")))
        (http_error 403 (codes "policy denied"))
    grants ← dispatch m later
    call (api.record_generation tenant id m.generation m.nonce)
        (λ e. http_error 409 (codes "replay"))
    pure (processed m.generation grants)
