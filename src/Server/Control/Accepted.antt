-- ===== src/Server/Control/Accepted.antt =====
-- What the Hub, over the store in memory, has checked and recorded of a message that it accepts.
use among_clusters.Prelude.{
  ℕ, ◌≡◌, refl, ap, true, false, not, ◌||◌, Option, none, some, arith, Option-cases, inl, inr, ◌∙◌,
  subst,
}
use among_clusters.Text.{Text, codes, ◌==◌, has_prefix}
use among_clusters.Text.Equality.{eq_iff}
use among_clusters.Time.{Time}
use among_clusters.Dict
use among_clusters.Model.{GrantSnapshot, ControlMessage, IdentityRegistration}
use among_clusters.Crypto.{Crypto}
use among_clusters.Protocol.{VerifyError, verify}
use among_clusters.Result.{ok}
use among_clusters.Http.{Response, Action, next, http_error, pure, call, ◌>>=◌, ◌>>◌}
use among_clusters.Http.Rules.{bind_next, present_next, call_next, require_next}
use among_clusters.Store.{
  MemoryStore, memory_store, key, identity, last_generation, generation_of, record_generation,
}
use among_clusters.Store.History.{Extends}
use among_clusters.Server.Control.{verified, dispatch, control_message, processed}
use among_clusters.Server.Settled.{dispatch-Settles}

identity_found :
    (s u : MemoryStore) (tenant id : Text) (v : IdentityRegistration)
    → identity tenant id s ≡ (ok v, u)
    → (Dict.get s.identities (key tenant id) ≡ some v) × (u ≡ s)
unfolding identity
identity_found s u tenant id v h = elim (Option-cases (Dict.get s.identities (key tenant id))) [
  | inl missing ↦ ground arith
  | inr (w, found) ↦ ground arith
]

generation_found :
    (s u : MemoryStore) (tenant id : Text) (g : ℕ)
    → last_generation tenant id s ≡ (ok g, u)
    → (g ≡ generation_of s.generations (key tenant id)) × (u ≡ s)
unfolding last_generation
generation_found s u tenant id g h = ground arith

verified_next {ℓ} :
    {P : Type ℓ} {B : Type 0} (o : Option VerifyError) (f : Action MemoryStore B)
    (s t : MemoryStore) (b : B)
    → (verified o >> f) s ≡ (next b, t)
    → (o ≡ none → f s ≡ (next b, t) → P)
    → P
unfolding verified ◌>>=◌
verified_next none f s t b h k = k refl h
verified_next (some e) f s t b h k = cc

policy :
    (issuer spiffe type : Text)
    → not (not (issuer == spiffe) || has_prefix type (codes "route.")) ≡ true
    → (issuer ≡ spiffe) × (has_prefix type (codes "route.") ≡ false)
policy issuer spiffe type h = ground (arith, eq_iff issuer spiffe)

generation-processed :
    (g : ℕ) (grants : Option GrantSnapshot) → (processed g grants).generation ≡ some g
unfolding processed
generation-processed g none = refl
generation-processed g (some grants) = refl

module _ (c : Crypto) (tenant id : Text) (later : Time) (s t : MemoryStore) (r : Response) where
  -- The end of the handler: the effects of the message, and its recording.
  abbrev ending : ControlMessage → Action MemoryStore Response
  ending m = do
    grants ← dispatch memory_store c tenant id m later
    call (memory_store.record_generation tenant id m.generation m.nonce)
        (λ e. http_error 409 (codes "replay"))
    pure (processed m.generation grants)

  pub record Recorded (m : ControlMessage) : Type 0 where
    pub before_record : MemoryStore
    pub effects : Extends s before_record
    pub recorded : record_generation tenant id m.generation m.nonce before_record ≡ (ok tt, t)
    pub numbered : r.generation ≡ some m.generation

  ending-Recorded : (m : ControlMessage) → ending m s ≡ (next r, t) → Recorded m
  unfolding pure
  ending-Recorded m h = bind_next _ _ s h λ grants u dispatched h1.
      call_next _ _ _ u h1 λ _ w recorded h2. record {
        before_record = u;
        effects =
            subst (λ x. Extends s x) (ap (λ x. x.1) dispatched)
              ((dispatch-Settles c tenant id m later).at s);
        recorded = cc (recorded, h2);
        numbered = cc (generation-processed m.generation grants, h2);
      }

pub record Accepted (c : Crypto) (tenant id : Text) (body : Option ControlMessage)
    (now later : Time) (s t : MemoryStore) (r : Response) : Type 0 where
  pub m : ControlMessage
  pub decoded : body ≡ some m
  pub v : IdentityRegistration
  pub registered : Dict.get s.identities (key tenant id) ≡ some v
  pub public_key : Text
  pub key_decoded : c.base64_decode v.public_key ≡ some public_key
  pub checked :
      verify c m public_key (codes "hub") now (generation_of s.generations (key tenant id)) none
      ≡ none
  pub from_issuer : m.issuer ≡ v.spiffe_id
  pub no_route : has_prefix m.type (codes "route.") ≡ false
  pub ended : Recorded c tenant id later s t r m

module _ (c : Crypto) (tenant id : Text) (body : Option ControlMessage) (now later : Time) where
  -- An accepted message decodes, comes under a registered identity, verifies for the Hub above the
  -- last recorded generation under the identity's key, has that identity's SPIFFE ID as issuer and
  -- no type of a route, and its generation and nonce were recorded last.
  pub control_message-Accepted :
      (s t : MemoryStore) (r : Response)
      → control_message memory_store c tenant id body now later s ≡ (next r, t)
      → Accepted c tenant id body now later s t r
  unfolding control_message
  control_message-Accepted s t r h = call_next _ _ _ s h λ v u got h1.
      present_next _ _ _ u h1 λ m is_body h2. present_next _ _ _ u h2 λ k is_key h3.
        call_next _ _ _ u h3 λ g w last h4. verified_next _ _ w t r h4 λ verifies h5.
          require_next _ _ _ w h5 λ allowed h6.
            let (registered, same) = identity_found s u tenant id v got in
            let (is_last, same') = generation_found u w tenant id g last in
            let (issuer, no_route) = policy m.issuer v.spiffe_id m.type allowed in
            record {
              m = m;
              decoded = is_body;
              v = v;
              registered = registered;
              public_key = k;
              key_decoded = is_key;
              checked =
                  subst (λ x. verify c m k (codes "hub") now x none ≡ none)
                    (is_last
                      ∙ ap (λ (x : MemoryStore). generation_of x.generations (key tenant id)) same)
                    verifies;
              from_issuer = issuer;
              no_route = no_route;
              ended =
                  subst (λ x. Recorded c tenant id later x t r m) (same' ∙ same)
                    (ending-Recorded c tenant id later w t r m h6);
            }
