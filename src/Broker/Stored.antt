-- ===== src/Broker/Stored.antt =====
-- What has been checked and written when the broker accepts a credential, and that a refused request
-- changes nothing.
use among_clusters.Prelude.{
  ℕ, ◌≡◌, ◌≢◌, refl, Bool, true, false, Option, some, [], ◌||◌, not, arith, if◌then◌else◌,
  Bool-cases, inl, inr,
}
use among_clusters.Text.{Text, codes, is_empty}
use among_clusters.Text.Equality.{is_empty_iff}
use among_clusters.Time.{Time, before}
use among_clusters.Dict.{put}
use among_clusters.Model.{ControlMessage, IdentityRegistration, CredentialPayload}
use among_clusters.Credential.{Decryption, opened, failed, panics}
use among_clusters.Http
use among_clusters.Http.{
  Response, Outcome, Action, done, next, http_error, write_json, pure, present, require, ◌>>=◌,
  ◌>>◌,
}
use among_clusters.Http.Rules.{present_next, require_next}
use among_clusters.Http.Clean.{
  IsReading, IsClean, GoesOn, present-IsReading, require-IsReading, pure-GoesOn, bind-IsClean,
  bind-IsClean_last, bind-GoesOn,
}
use among_clusters.Broker.Authorized.{IsAuthorized, is_authorized-IsAuthorized}
use among_clusters.Broker.{
  Broker, World, StoreMeta, Secret, store, last_generation, read_generation, set_generation,
  decrypted, can_write, write_secret, secret_name, reference,
}

-- Inversion of a chain that begins with one of the broker's own actions.
module _ {ℓ} {P : Type ℓ} {B : Type 0} (s t : Broker) (b : B) where
  read_next :
      (id : Text) (f : ℕ → Action Broker B)
      → (read_generation id >>= f) s ≡ (next b, t)
      → (f (last_generation s id) s ≡ (next b, t) → P)
      → P
  unfolding read_generation ◌>>=◌
  read_next id f h k = k h

  pub decrypted_next :
      (d : Decryption CredentialPayload) (r : Response) (f : CredentialPayload → Action Broker B)
      → (decrypted d r >>= f) s ≡ (next b, t)
      → ((v : CredentialPayload) → d ≡ opened v → f v s ≡ (next b, t) → P)
      → P
  unfolding decrypted ◌>>=◌
  decrypted_next (opened v) r f h k = k v refl h
  decrypted_next failed r f h k = cc
  decrypted_next panics r f h k = cc

  written_if :
      (c : Bool) (u : Broker) (q : Response) (f : Action Broker B)
      → ((λ v. if c then (next tt, u) else (done q, v)) >> f) s ≡ (next b, t)
      → (c ≡ true → f u ≡ (next b, t) → P)
      → P
  unfolding ◌>>=◌
  written_if true u q f h k = k refl h
  written_if false u q f h k = cc

  write_next :
      (w : World) (name : Text) (secret : Secret) (f : Action Broker B)
      → (write_secret w name secret >> f) s ≡ (next b, t)
      → (can_write w s name ≡ true
          → f (record s { secrets = put s.secrets name secret }) ≡ (next b, t)
          → P)
      → P
  unfolding write_secret ◌>>=◌
  write_next w name secret f h k =
      written_if (can_write w s name) (record s { secrets = put s.secrets name secret })
        (http_error 500 (codes "store failed")) f h k

recorded :
    (s t : Broker) (id : Text) (g : ℕ) (q r : Response)
    → (set_generation id g >> pure q) s ≡ (next r, t)
    → (t ≡ record s { generations = put s.generations id g }) × (r ≡ q)
unfolding set_generation pure ◌>>=◌
recorded s t id g q r h = (cc, cc)

module _ (w : World) where
  all_named :
      (v : StoreMeta)
      → not (is_empty v.tenant || (is_empty v.cluster_id || is_empty v.grant_ref)) ≡ true
      → (v.tenant ≢ []) × (v.cluster_id ≢ []) × (v.grant_ref ≢ [])
  all_named v h =
      let tenant = is_empty_iff v.tenant in
      let id = is_empty_iff v.cluster_id in
      let grant = is_empty_iff v.grant_ref in
      (
        (λ e. ground (arith, h, tenant, e)),
        (λ e. ground (arith, h, id, e)),
        (λ e. ground (arith, h, grant, e)),
      )

  -- The broker accepted the credential of message `m`: these are the facts.
  pub record IsStored (m : ControlMessage) (now later : Time) (s t : Broker) (r : Response)
      : Type 0 where
    pub meta : StoreMeta
    pub sender : IdentityRegistration
    pub key : Text
    pub payload : CredentialPayload
    pub parsed : w.unmarshal_store m.payload ≡ some meta
    pub known : w.identity meta.tenant meta.cluster_id ≡ some sender
    pub has_key : w.crypto.base64_decode sender.public_key ≡ some key
    pub named : (meta.tenant ≢ []) × (meta.cluster_id ≢ []) × (meta.grant_ref ≢ [])
    pub authorized :
        IsAuthorized w m sender
          (codes "credential.store")
          key
          now
          (last_generation s sender.spiffe_id)
    pub sealed : w.decrypt meta.envelope ≡ opened payload
    pub has_token : payload.token ≢ []
    pub live : before later payload.expires_at ≡ true
    pub result : t ≡ record {
      generations = put s.generations sender.spiffe_id m.generation;
      secrets = put s.secrets (secret_name meta.tenant meta.grant_ref) (record {
        envelope_json = w.marshal_envelope meta.envelope;
        expires_at = w.format payload.expires_at;
      });
    }
    pub response : r ≡ write_json 201 (Http.credential_ref (reference meta.tenant meta.grant_ref))

  pub read_generation-IsReading : (id : Text) → IsReading (read_generation id)
  unfolding read_generation
  read_generation-IsReading id s = refl

  pub decrypted-IsReading :
      (d : Decryption CredentialPayload) (r : Response) → IsReading (decrypted d r)
  unfolding decrypted
  decrypted-IsReading (opened v) r s = refl
  decrypted-IsReading failed r s = refl
  decrypted-IsReading panics r s = refl

  write_secret-IsClean : (name : Text) (secret : Secret) → IsClean (write_secret w name secret)
  unfolding write_secret
  write_secret-IsClean name secret s t r h = elim (Bool-cases (can_write w s name)) [
    | inl e ↦ absurd (ground (arith, h, e))
    | inr e ↦ ground (arith, h, e)
  ]

  set_generation-GoesOn : (id : Text) (g : ℕ) → GoesOn (set_generation id g)
  unfolding set_generation
  set_generation-GoesOn id g s t r h = cc

  ruleset clean = (
    present-IsReading, require-IsReading, pure-GoesOn, bind-IsClean, bind-IsClean_last, bind-GoesOn,
    read_generation-IsReading, decrypted-IsReading, write_secret-IsClean, set_generation-GoesOn,
  )

  -- A request to store that is refused leaves the broker as it was.
  pub store-IsClean :
      (body : Option ControlMessage) (now later : Time) → IsClean (store w body now later)
  unfolding store
  store-IsClean body now later = search clean depth 40

  usable :
      (payload : CredentialPayload) (later : Time)
      → not (is_empty payload.token || not (before later payload.expires_at)) ≡ true
      → (payload.token ≢ []) × (before later payload.expires_at ≡ true)
  usable payload later h =
      let empty = is_empty_iff payload.token in
      ((λ e. ground (arith, h, empty, e)), ground (arith, h))

  -- If the broker accepts a credential, then the payload of the message parses, with a tenant, a
  -- cluster and a grant; the Hub knows the sender, whose SPIFFE ID is the issuer; the message is a
  -- credential.store for the broker, within its time, above the sender's last generation and signed
  -- under the sender's key; the envelope opens to a credential that has a token and is not past its
  -- expiry; and the broker writes exactly this envelope under the name of the tenant and the grant
  -- and the message's generation for the sender.
  pub store-IsStored :
      (body : Option ControlMessage) (now later : Time) (s t : Broker) (r : Response)
      → store w body now later s ≡ (next r, t)
      → (m : ControlMessage) × (body ≡ some m) × IsStored m now later s t r
  unfolding store
  store-IsStored body now later s t r h = present_next _ _ _ s h λ m e h.
      present_next _ _ _ s h λ meta parsed h. require_next _ _ _ s h λ named h.
        present_next _ _ _ s h λ v known h. present_next _ _ _ s h λ key has_key h.
          read_next s t r _ _ h λ h. require_next _ _ _ s h λ authorized h.
            decrypted_next s t r _ _ _ h λ payload sealed h. require_next _ _ _ s h λ fit h.
              write_next s t r w _ _ _ h λ allowed h.
                let ends = recorded _ t _ _ _ r h in
                let good = usable payload later fit in
                (
                  m,
                  e,
                  record {
                    meta = meta;
                    sender = v;
                    key = key;
                    payload = payload;
                    parsed = parsed;
                    known = known;
                    has_key = has_key;
                    named = all_named meta named;
                    authorized =
                        is_authorized-IsAuthorized w m v (codes "credential.store") key now
                          (last_generation s v.spiffe_id) authorized;
                    sealed = sealed;
                    has_token = good.0;
                    live = good.1;
                    result = ends.0;
                    response = ends.1;
                  },
                )
