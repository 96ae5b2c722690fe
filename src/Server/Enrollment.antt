-- ===== src/Server/Enrollment.antt =====
-- Enrolment of a cluster over the store in memory: what the Hub's handler has checked when it accepts
-- an invitation, and that an invitation enrols one cluster at most.
use among_clusters.Prelude.{◌≡◌, ◌≢◌, refl, sym, ap, true, Option, none, some, List, subst, arith}
use among_clusters.Text.{Text}
use among_clusters.Time.{Time, zero_time}
use among_clusters.Dict
use among_clusters.Model.{IdentityRegistration, Invitation, InvitationAcceptance}
use among_clusters.Crypto.{Crypto}
use among_clusters.Protocol.{token_hash, validate_identity}
use among_clusters.Protocol.Identity.{IsRegistrable, validate_identity_iff}
use among_clusters.Result.{ok}
use among_clusters.Http
use among_clusters.Http.{
  Response, Action, write_json, next, pure, present, call, require, ◌>>=◌, ◌>>◌,
}
use among_clusters.Http.Rules.{present_next, call_next, require_next}
use among_clusters.Store.{
  MemoryStore, memory_store, identity, consume_invitation, register_identity,
}
use among_clusters.Store.Invitations.{consume_invitation_iff}
use among_clusters.Store.History.{Extends, Extends-trans}
use among_clusters.Store.History.Steps.{register_identity-Extends}
use among_clusters.Store.History.Permanence.{invitation_single_use, identity_permanent}
use among_clusters.Server.{Config, accept_invitation, get_identity, is_none}
use among_clusters.Server.Routes.{Request, serve, serve-Extends}

-- What is true when the Hub has accepted an invitation.
pub record Enrolled (c : Crypto) (id : Text) (input : InvitationAcceptance) (now : Time)
    (s t : MemoryStore) : Type 0 where
  pub registrable : IsRegistrable c input.identity
  pub public_key : Text
  pub proof : Text
  pub identity_body : Text
  pub key_decoded : c.base64_decode input.identity.public_key ≡ some public_key
  pub proof_decoded : c.base64_decode input.proof ≡ some proof
  pub encoded : c.marshal_identity input.identity ≡ some identity_body
  pub owned : c.verify public_key identity_body proof ≡ true
  pub invitation : Invitation
  pub consumed :
      (consume_invitation id
        (token_hash c input.token)
        input.identity.tenant
        input.identity.cluster_id
        input.identity.capabilities
        now
        s).0
      ≡ ok invitation
  pub registered :
      register_identity
        (record (input.identity) { region = invitation.region })
        (consume_invitation id
          (token_hash c input.token)
          input.identity.tenant
          input.identity.cluster_id
          input.identity.capabilities
          now
          s).1
      ≡ (ok tt, t)

is_none-eq : {A : Type 0} (o : Option A) → is_none o ≡ true → o ≡ none
is_none-eq none h = refl
is_none-eq (some a) h = cc

module _ (c : Crypto) (id : Text) (input : InvitationAcceptance) (now : Time) where
  -- When the Hub, over the store in memory, accepts an invitation for an identity, the identity is registrable, its owner has
  -- signed it with the key that it names, the request redeems the invitation, and the identity is
  -- registered with the invitation's region.
  pub accept_invitation-Enrolled :
      (s t : MemoryStore) (r : Response)
      → accept_invitation memory_store c id (some input) now s ≡ (next r, t)
      → Enrolled c id input now s t
  unfolding accept_invitation pure
  accept_invitation-Enrolled s t r h = present_next _ _ _ s h λ body is_body h1.
      require_next _ _ _ s h1 λ valid h2. present_next _ _ _ s h2 λ k is_key h3.
        present_next _ _ _ s h3 λ p is_proof h4. present_next _ _ _ s h4 λ encoding is_encoding h5.
          require_next _ _ _ s h5 λ owned h6. call_next _ _ _ s h6 λ inv u consumed h7.
            require_next _ _ _ u h7 λ same_tenant h8. call_next _ _ _ u h8 λ _ w registered h9.
              let same : body ≡ input = sym (cc is_body) in
              subst (λ x. Enrolled c id x now s t) same
                (record {
                  registrable =
                      (validate_identity_iff c body.identity).0
                        (is_none-eq (validate_identity c body.identity) valid);
                  public_key = k;
                  proof = p;
                  identity_body = encoding;
                  key_decoded = is_key;
                  proof_decoded = is_proof;
                  encoded = is_encoding;
                  owned = owned;
                  invitation = inv;
                  consumed = ap (λ x. x.0) consumed;
                  registered =
                      subst
                        (λ x.
                          register_identity (record (body.identity) { region = inv.region }) x
                          ≡ (ok tt, t))
                        (sym (ap (λ x. x.1) consumed)) (cc (registered, h9));
                })

get_identity_found :
    (tenant id : Text) (v : IdentityRegistration) (s : MemoryStore)
    → (identity tenant id s).0 ≡ ok v
    → (get_identity memory_store tenant id s).0 ≡ next (write_json 200 (Http.registration v))
unfolding get_identity pure call ◌>>=◌
get_identity_found tenant id v s h = ground arith

module _ (config : Config) (c : Crypto) (id : Text) (input input' : InvitationAcceptance)
    (now now' : Time) where
  -- Over the store in memory, an invitation enrols at most one cluster: after it has been accepted, at a time other than the zero
  -- time, no acceptance under its ID succeeds, whatever requests the Hub has served since.
  pub enrolment_single_use :
      (s t : MemoryStore) (r : Response) (rs : List Request) (r' : Response) (t' : MemoryStore)
      → accept_invitation memory_store c id (some input) now s ≡ (next r, t)
      → now ≢ zero_time
      → accept_invitation memory_store c id (some input') now' (serve memory_store config c t rs)
        ≢ (next r', t')
  enrolment_single_use s t r rs r' t' h nonzero again =
      let e = accept_invitation-Enrolled c id input now s t r h in
      let e' =
        accept_invitation-Enrolled c id input' now' (serve memory_store config c t rs) t' r'
          again in
      let v = input.identity in
      let v' = input'.identity in
      let after =
        (consume_invitation id (token_hash c input.token) v.tenant v.cluster_id v.capabilities now
          s).1 in
      let enrolled = register_identity-Extends after (record v { region = e.invitation.region }) in
      invitation_single_use s id (token_hash c input.token) v.tenant v.cluster_id v.capabilities now
        e.invitation (serve memory_store config c t rs) (token_hash c input'.token) v'.tenant
        v'.cluster_id v'.capabilities now' e'.invitation e.consumed nonzero
        (Extends-trans
          (subst (λ (x : MemoryStore). Extends after x) (ap (λ x. x.1) e.registered) enrolled)
          (serve-Extends config c rs t))
        e'.consumed

module _ (config : Config) (c : Crypto) (id : Text) (input : InvitationAcceptance)
    (now : Time) where
  -- Over the store in memory (MemorySovereignStore): after an enrolment, and whatever requests have been
  -- served over this store since, the lookup of the cluster reports the identity that was enrolled,
  -- with the region of the invitation that it redeemed.
  pub enrolled_identity :
      (s t : MemoryStore) (r : Response) (rs : List Request)
      → accept_invitation memory_store c id (some input) now s ≡ (next r, t)
      → (v : Invitation) × (Dict.get s.invitations id ≡ some v)
        × ((get_identity memory_store input.identity.tenant input.identity.cluster_id
              (serve memory_store config c t rs)).0
            ≡ next (
                write_json 200 (Http.registration (record (input.identity) { region = v.region }))))
  enrolled_identity s t r rs h =
      let e = accept_invitation-Enrolled c id input now s t r h in
      let v = input.identity in
      let (inv, found, redeems, result) =
        (consume_invitation_iff id (token_hash c input.token) v.tenant v.cluster_id v.capabilities
            now s e.invitation).0
          e.consumed in
      let after =
        (consume_invitation id (token_hash c input.token) v.tenant v.cluster_id v.capabilities now
          s).1 in
      let kept : IdentityRegistration = record v { region = e.invitation.region } in
      let (permanent, _) =
        identity_permanent after kept (serve memory_store config c t rs) kept refl refl
          (ap (λ x. x.0) e.registered)
          (subst (λ (x : MemoryStore). Extends x (serve memory_store config c t rs))
            (sym (ap (λ x. x.1) e.registered)) (serve-Extends config c rs t)) in
      (
        inv,
        found,
        subst
            (λ x.
              (get_identity memory_store v.tenant v.cluster_id (serve memory_store config c t rs)).0
              ≡ next (write_json 200 (Http.registration (record v { region = x }))))
            (ap (λ (x : Invitation). x.region) result)
            (get_identity_found v.tenant v.cluster_id kept (serve memory_store config c t rs)
              permanent),
      )
