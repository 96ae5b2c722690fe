-- ===== src/Agent/Messages.antt =====
-- cmd/agent/main.go: the messages of the agent (sendControlResponse, uploadCredential, revokeCredential) and
-- its registration (registration, register).
use among_clusters.Prelude.{
  ℕ, ◌+◌, ◌%◌, ◌^◌, Bool, not, ◌&&◌, Option, none, some, List, [], ◌∷◌, ◌++◌, nat_eq, if◌then◌else◌,
}
use among_clusters.Prelude.Int.{pos}
use among_clusters.Text.{Text, trim_space, codes, is_empty}
use among_clusters.Time.{Time, add, seconds}
use among_clusters.Model.{
  ControlMessage, IdentityRegistration, InvitationAcceptance, GrantInstruction, GrantFulfillment,
}
use among_clusters.Crypto.{Crypto}
use among_clusters.Protocol.{sign}
use among_clusters.Result.{Result, Error, ok, err, remote, message}
use among_clusters.Agent.{Agent, spiffe_id, format_uint}

-- A response: its status line, its code, and its body, if it can be read.
pub record Response : Type 0 where
  pub status : Text
  pub code : ℕ
  pub body : Option Text

unfoldable pub text_or_empty : Option Text → Text
text_or_empty none = []
text_or_empty (some text) = text

-- responseStatusError. The bound of 4096 bytes on the detail is left out.
unfoldable pub response_status_error : Text → Response → Error
unfolding text_or_empty
response_status_error upstream r =
    let text = trim_space (text_or_empty r.body) in
    let head = upstream ++ (codes " returned " ++ r.status) in
    remote (if is_empty text then head else head ++ (codes ": " ++ text))

-- a.sequence++ on a uint64
unfoldable pub next_sequence : ℕ → ℕ
next_sequence n = (n + 1) % 2 ^ 64

-- The message of a type with a payload, before it is signed.
unfoldable pub hub_message : Agent → Text → Text → Time → ControlMessage
hub_message a type payload now = record {
  issuer = spiffe_id a;
  audience = codes "hub";
  generation = a.sequence;
  issued_at = now;
  expires_at = add now (seconds (pos 60));
  nonce = a.cluster_id ++ (codes "-" ++ format_uint a.sequence);
  type = type;
  payload = payload;
  signature = [];
}

-- The messages to the credential broker, `tag` being broker or revoke.
unfoldable pub broker_message : Agent → Text → Text → Text → Time → ControlMessage
unfolding next_sequence
broker_message a tag type payload now =
    let generation = next_sequence a.sequence in
    record {
      issuer = spiffe_id a;
      audience = codes "credential-broker";
      generation = generation;
      issued_at = now;
      expires_at = add now (seconds (pos 60));
      nonce = a.cluster_id ++ (codes "-" ++ (tag ++ (codes "-" ++ format_uint generation)));
      type = type;
      payload = payload;
      signature = [];
    }

-- The agent in its process, and the generation that its Secret keeps.
pub record Process : Type 0 where
  pub agent : Agent
  pub stored_generation : Text

-- What is outside: the request to the Hub (none where it gets no response), the Secret's Get and Update,
-- and the clock; `failure` is the error of a call that fails.
pub record World : Type 0 where
  pub deliver : ControlMessage → Option Response
  pub reads_secret : Bool
  pub writes_secret : Bool
  pub now : Time
  pub failure : Error

module _ (c : Crypto) (w : World) where
  -- From the response of the Hub on.
  unfoldable pub store_sequence : Response → Process → Result Text × Process
  unfolding response_status_error
  store_sequence r p =
      if not (nat_eq r.code 202) && not (nat_eq r.code 200)
      then (err (response_status_error (codes "hub") r), p)
      else elim r.body [
        | none ↦ (err w.failure, p)
        | some body ↦
            if w.reads_secret && w.writes_secret
            then (ok body, record p { stored_generation = format_uint p.agent.sequence })
            else (err w.failure, p)
      ]

  -- sendControlResponse
  unfoldable pub send_control_response : Text → Text → Process → Result Text × Process
  unfolding hub_message next_sequence store_sequence
  send_control_response type payload p =
      let agent = record p.agent { sequence = next_sequence p.agent.sequence } in
      let q = record p { agent = agent } in
      elim (sign c (hub_message agent type payload w.now) agent.key) [
        | none ↦ (err w.failure, q)
        | some m ↦ elim (w.deliver m) [ none ↦ (err w.failure, q) | some r ↦ store_sequence r q ]
      ]

-- registration, with the digest of the identity's Secret.
unfoldable pub registration : Crypto → Agent → Text → IdentityRegistration
registration c a digest = record {
  cluster_id = a.cluster_id;
  region = [];
  tenant = a.tenant;
  trust_domain = a.trust_domain;
  spiffe_id = spiffe_id a;
  bundle_digest = digest;
  public_key = c.base64_encode (c.public a.key);
  capabilities = codes "service" ∷ codes "quic-mtls" ∷ [];
  gateway_endpoints = if is_empty a.gateway_endpoint then [] else a.gateway_endpoint ∷ [];
}

-- The body of register.
unfoldable pub acceptance : Crypto → Agent → Text → Text → InvitationAcceptance
unfolding registration text_or_empty
acceptance c a digest token =
    let v = registration c a digest in
    record {
      token = token;
      identity = v;
      proof = c.base64_encode (c.sign a.key (text_or_empty (c.marshal_identity v)));
    }

-- The end of register: a conflict counts as registered.
unfoldable pub registered : Response → Result (Unit {0})
unfolding response_status_error
registered r =
    if not (nat_eq r.code 201) && not (nat_eq r.code 409)
    then err (response_status_error (codes "hub") r)
    else ok tt

-- The end of revokeCredential.
unfoldable pub credential_revoked : Response → Result (Unit {0})
credential_revoked r =
    if not (nat_eq r.code 204) && not (nat_eq r.code 404)
    then err (remote (codes "credential revoke returned " ++ r.status))
    else ok tt

-- The end of uploadCredential: the reference that the broker returned, read by `decode`.
unfoldable pub fulfillment :
    (Text → Option Text) → Response → GrantInstruction → Time → Result GrantFulfillment
fulfillment decode r grant now =
    let refused = err (remote (codes "credential broker returned " ++ r.status)) in
    if not (nat_eq r.code 201) then refused else elim r.body [
      | none ↦ refused
      | some body ↦ elim (decode body) [
        | none ↦ refused
        | some reference ↦
            ok (record { grant_ref = grant.name; credential_ref = reference; renewed_at = now })
      ]
    ]

-- The loop of pollGrants: it stops at the first grant that fails.
unfoldable pub reconcile_all :
    {S : Type 0}
    → (GrantInstruction → S → Result (Unit {0}) × S)
    → List GrantInstruction
    → S
    → Result (Unit {0}) × S
reconcile_all f [] s = (ok tt, s)
reconcile_all f (grant ∷ grants) s =
    let first = f grant s in
    let rest = reconcile_all f grants first.1 in
    elim first.0 [
      | ok _ ↦ rest
      | err e ↦
          (err (remote (codes "grant " ++ (grant.name ++ (codes ": " ++ message e)))), first.1)
    ]
