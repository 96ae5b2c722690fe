-- ===== src/Store/History/Steps.antt =====
-- Each method of the store in memory keeps what was settled.
use among_clusters.Prelude.{
  ℕ, ◌≡◌, refl, false, some, List, [], ◌∷◌, arith, Option-cases, inl, inr, not, Bool-cases, ◌||◌,
  subst,
}
use among_clusters.Text.{Text, is_empty}
use among_clusters.Time.{Time, zero_time, is_zero, is_zero_iff}
use among_clusters.Dict
use among_clusters.Dict.{Dict, get-put}
use among_clusters.Model.{
  LinkObservation, BundleConfirmation, AdvertisedService, IdentityRegistration, Invitation,
  OnboardingClaim,
}
use among_clusters.Result.{Result, ok, err}
use among_clusters.Store.{
  MemoryStore, create_invitation, consume_invitation, create_onboarding_claim,
  consume_onboarding_claim, register_identity, record_generation, key, identity, last_generation,
  confirm_peer_bundle, observe_link, sync_advertisements, pending_grants, fulfill_grant,
}
use among_clusters.Store.Invitations.{
  consume_invitation_iff, consume_invitation_state, consume_invitation_refused,
}
use among_clusters.Store.Claims.{
  consume_onboarding_claim_iff, consume_onboarding_claim_state, consume_onboarding_claim_refused,
}
use among_clusters.Store.Generations.{settled_by_record, generation_grows, nonce_stays}
use among_clusters.Store.History.{
  Call, creates_claim, consumes_claim, creates_invitation, consumes_invitation, registers, records,
  observes, reads_identity, reads_generation, confirms, syncs, polls, fulfills, perform, run,
  Keeps-put, Extends, Extends-refl, Extends-trans,
}

unused_invitation : (v : Invitation) → v.used_at ≡ zero_time → not (is_zero v.used_at) ≡ false
unused_invitation v e = ground (arith, is_zero_iff v.used_at)

unused_claim : (v : OnboardingClaim) → v.used_at ≡ zero_time → not (is_zero v.used_at) ≡ false
unused_claim v e = ground (arith, is_zero_iff v.used_at)

module _ (s : MemoryStore) where
  write_invitation :
      (k : Text) (u : Invitation)
      → ((v : Invitation) → Dict.get s.invitations k ≡ some v → not (is_zero v.used_at) ≡ false)
      → Extends s (record s { invitations = Dict.put s.invitations k u })
  write_invitation k u open_entry = record {
    invitations = Keeps-put _ s.invitations k u open_entry;
    claims = λ j v e p. e;
    identities = λ j v e p. e;
    generations = λ j. omega arith;
    nonces = λ j n e. e;
  }

  pub create_invitation-Extends : (v : Invitation) → Extends s (create_invitation v s).1
  unfolding create_invitation
  create_invitation-Extends v = elim (Option-cases (Dict.get s.invitations v.id)) [
    | inl new ↦ rw (new, create_invitation) (write_invitation v.id v (λ u e. cc (new, e)))
    | inr (u, old) ↦ rw (old, create_invitation) (Extends-refl s)
  ]

  pub consume_invitation-Extends :
      (id hash tenant cluster : Text) (requested : List Text) (now : Time)
      → Extends s (consume_invitation id hash tenant cluster requested now s).1
  consume_invitation-Extends id hash tenant cluster requested now =
      by_result (consume_invitation id hash tenant cluster requested now s).0 refl
    where
      by_result :
          (r : Result Invitation)
          → (consume_invitation id hash tenant cluster requested now s).0 ≡ r
          → Extends s (consume_invitation id hash tenant cluster requested now s).1
      by_result (err e) h =
          rw (consume_invitation_refused id hash tenant cluster requested now s e h)
            (Extends-refl s)
      by_result (ok u) h =
          let (v, found, redeems, result) =
            (consume_invitation_iff id hash tenant cluster requested now s u).0 h in
          rw (consume_invitation_state id hash tenant cluster requested now s u h) (
            write_invitation id u (λ w e.
              let same : v ≡ w = cc (found, e) in
              subst (λ x. not (is_zero x.used_at) ≡ false) same
                (unused_invitation v redeems.unused)))

  write_claim :
      (k : Text) (u : OnboardingClaim)
      → ((v : OnboardingClaim)
          → Dict.get s.onboarding_claims k ≡ some v
          → not (is_zero v.used_at) ≡ false)
      → Extends s (record s { onboarding_claims = Dict.put s.onboarding_claims k u })
  write_claim k u open_entry = record {
    invitations = λ j v e p. e;
    claims = Keeps-put _ s.onboarding_claims k u open_entry;
    identities = λ j v e p. e;
    generations = λ j. omega arith;
    nonces = λ j n e. e;
  }

  pub create_claim-Extends : (v : OnboardingClaim) → Extends s (create_onboarding_claim v s).1
  unfolding create_onboarding_claim
  create_claim-Extends v = elim (Option-cases (Dict.get s.onboarding_claims v.id)) [
    | inl new ↦ rw (new, create_onboarding_claim) (write_claim v.id v (λ u e. cc (new, e)))
    | inr (u, old) ↦ rw (old, create_onboarding_claim) (Extends-refl s)
  ]

  pub consume_claim-Extends :
      (tenant id hash : Text) (now : Time)
      → Extends s (consume_onboarding_claim tenant id hash now s).1
  consume_claim-Extends tenant id hash now =
      by_result (consume_onboarding_claim tenant id hash now s).0 refl
    where
      by_result :
          (r : Result OnboardingClaim)
          → (consume_onboarding_claim tenant id hash now s).0 ≡ r
          → Extends s (consume_onboarding_claim tenant id hash now s).1
      by_result (err e) h =
          rw (consume_onboarding_claim_refused tenant id hash now s e h) (Extends-refl s)
      by_result (ok u) h =
          let (v, found, consumes, result) =
            (consume_onboarding_claim_iff tenant id hash now s u).0 h in
          rw (consume_onboarding_claim_state tenant id hash now s u h) (
            write_claim id u (λ w e.
              let same : v ≡ w = cc (found, e) in
              subst (λ x. not (is_zero x.used_at) ≡ false) same (unused_claim v consumes.unused)))

  pub register_identity-Extends : (v : IdentityRegistration) → Extends s (register_identity v s).1
  unfolding register_identity
  register_identity-Extends v =
      elim (Option-cases (Dict.get s.identities (key v.tenant v.cluster_id))) [
        | inl new ↦
            rw (new, register_identity)
              (record {
                invitations = λ j u e p. e;
                claims = λ j u e p. e;
                identities =
                    Keeps-put _ s.identities (key v.tenant v.cluster_id) v (λ u e. cc (new, e));
                generations = λ j. omega arith;
                nonces = λ j n e. e;
              })
        | inr (u, old) ↦ rw (old, register_identity) (Extends-refl s)
      ]

  pub record_generation-Extends :
      (tenant id : Text) (g : ℕ) (nonce : Text)
      → Extends s (record_generation tenant id g nonce s).1
  record_generation-Extends tenant id g nonce =
      let (same_invitations, same_claims, same_identities) =
        settled_by_record s tenant id nonce g in
      record {
        invitations = λ j v e p. rw same_invitations e;
        claims = λ j v e p. rw same_claims e;
        identities = λ j v e p. rw same_identities e;
        generations = generation_grows s tenant id nonce g;
        nonces = nonce_stays s tenant id nonce g;
      }

  -- What a store keeps does not depend on its links and advertisements.
  pub unrelated :
      (links : Dict LinkObservation) (advertisements : Dict (List AdvertisedService))
      → Extends s (record s { links = links; advertisements = advertisements })
  unrelated links advertisements = record {
    invitations = λ k v e p. e;
    claims = λ k v e p. e;
    identities = λ k v e p. e;
    generations = λ k. omega arith;
    nonces = λ k n e. e;
  }

  pub observe_link-Extends :
      (tenant issuer : Text) (v : LinkObservation) → Extends s (observe_link tenant issuer v s).1
  unfolding observe_link
  observe_link-Extends tenant issuer v =
      elim (Bool-cases (is_empty v.link_ref || is_empty v.peer_ref)) [
        | inl bad ↦ rw (bad, observe_link) (Extends-refl s)
        | inr good ↦ rw (good, observe_link) (unrelated _ s.advertisements)
      ]

  pub confirm_peer_bundle-Extends :
      (tenant issuer : Text) (v : BundleConfirmation)
      → Extends s (confirm_peer_bundle tenant issuer v s).1
  unfolding confirm_peer_bundle
  confirm_peer_bundle-Extends tenant issuer v =
      elim (Bool-cases (is_empty v.peer_ref || is_empty v.bundle_digest)) [
        | inl bad ↦ rw (bad, confirm_peer_bundle) (Extends-refl s)
        | inr good ↦ rw (good, confirm_peer_bundle) (Extends-refl s)
      ]

  pub identity-Extends : (tenant id : Text) → Extends s (identity tenant id s).1
  unfolding identity
  identity-Extends tenant id = elim (Option-cases (Dict.get s.identities (key tenant id))) [
    | inl missing ↦ rw (missing, identity) (Extends-refl s)
    | inr (v, found) ↦ rw (found, identity) (Extends-refl s)
  ]

-- One call keeps what was settled.
pub perform-Extends : (c : Call) (s : MemoryStore) → Extends s (perform c s)
unfolding perform sync_advertisements last_generation pending_grants fulfill_grant
perform-Extends (creates_claim v) s = create_claim-Extends s v
perform-Extends (consumes_claim t i h now) s = consume_claim-Extends s t i h now
perform-Extends (creates_invitation v) s = create_invitation-Extends s v
perform-Extends (consumes_invitation i h t c r now) s = consume_invitation-Extends s i h t c r now
perform-Extends (registers v) s = register_identity-Extends s v
perform-Extends (reads_identity t i) s = identity-Extends s t i
perform-Extends (reads_generation t i) s = Extends-refl s
perform-Extends (records t i g n) s = record_generation-Extends s t i g n
perform-Extends (confirms t i v) s = confirm_peer_bundle-Extends s t i v
perform-Extends (observes t i v) s = observe_link-Extends s t i v
perform-Extends (syncs t i v now) s = unrelated s s.links _
perform-Extends (polls t i now) s = Extends-refl s
perform-Extends (fulfills t i v) s = Extends-refl s

-- After any history of calls, a store still has every used invitation and claim and every identity
-- as it was, no generation has fallen, and every used nonce is used.
pub run-Extends : (s : MemoryStore) (calls : List Call) → Extends s (run s calls)
unfolding run
run-Extends s [] = Extends-refl s
run-Extends s (c ∷ cs) = Extends-trans (perform-Extends c s) (run-Extends (perform c s) cs)
