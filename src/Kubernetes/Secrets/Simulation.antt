-- ===== src/Kubernetes/Secrets/Simulation.antt =====
-- The Kubernetes store refines the store in memory: ConsumeOnboardingClaim.
use among_clusters.Prelude.{
  ◌≡◌, ◌≢◌, inl, inr, refl, sym, ◌∙◌, subst, false, Option, none, some, arith, Option-cases,
  Bool-cases,
}
use among_clusters.Text.{Text, is_empty, ◌==◌}
use among_clusters.Text.Equality.{eq_iff}
use among_clusters.Time.{Time, is_zero}
use among_clusters.Dict
use among_clusters.Dict.{get-put}
use among_clusters.Model.{OnboardingClaim}
use among_clusters.Result.{Result, Error, ok, err}
use among_clusters.Reconciler.{Rfc3339}
use among_clusters.Store
use among_clusters.Store.{MemoryStore, claim_check, store_claim}
use among_clusters.Versioned.{Versioned, updated}
use among_clusters.Kubernetes.Secrets.{
  Secret, Secrets, Codec, claim_name, check_secret, map_result, used_claim,
  consume_onboarding_claim,
}
use among_clusters.Kubernetes.Secrets.Refinement.{
  IsReliable, IsSecretOf, Agrees, Represents, checks_agree, written_agrees, refused_in_memory,
  found_in_memory, looped, looped_missing, looped_refused, looped_done,
}

pub claim_name_inj : (a b : Text) → claim_name a ≡ claim_name b → a ≡ b
unfolding claim_name
claim_name_inj a b e = cc

-- Another tenant has no claim under an ID whose claim is the tenant's.
elsewhere :
    (layout : Rfc3339) (tenant other id : Text) (o : Option (Versioned Secret))
    (v w : OnboardingClaim)
    → tenant ≢ other
    → v.tenant ≡ tenant
    → w.tenant ≡ tenant
    → Agrees layout other id o (some v)
    → Agrees layout other id o (some w)
unfolding Agrees
elsewhere layout tenant other id none v w n e f a = λ g. n (sym f ∙ g)
elsewhere layout tenant other id (some x) v w n e f (g, h) = absurd (n (sym e ∙ g))

module _ (d : Dict.Dict OnboardingClaim) (id : Text) (w : OnboardingClaim) where
  get-put_same : Dict.get (Dict.put d id w) id ≡ some w
  get-put_same = ground (arith, get-put d id id w, (eq_iff id id).1 refl)

  get-put_other :
      (asked : Text) → id == asked ≡ false → Dict.get (Dict.put d id w) asked ≡ Dict.get d asked
  get-put_other asked h = ground (arith, get-put d id asked w, h)

module _ {S : Type 0} (layout : Rfc3339) (secrets : Secrets S) (reliable : IsReliable secrets)
    (tenant id : Text) (s t : S) (m : MemoryStore) (x y : Versioned Secret) (u : Secret)
    (v w : OnboardingClaim) where
  -- What agrees after the use, under any tenant and ID.
  abbrev AgreesAfter : Text → Text → Type 0
  AgreesAfter other asked =
      Agrees layout other asked ((secrets.at other (claim_name asked)).get t)
        (Dict.get (Dict.put m.onboarding_claims id w) asked)

  own_agrees :
      (secrets.at tenant (claim_name id)).get t ≡ some y
      → y.value ≡ u
      → (w.tenant ≡ tenant) × IsSecretOf layout id u w
      → AgreesAfter tenant id
  unfolding Agrees
  own_agrees read content (owner, holds) =
      rw (read, get-put_same m.onboarding_claims id w)
        (owner, subst (λ z. IsSecretOf layout id z w) (sym content) holds)

  module _ (rep : Represents layout secrets s m)
      (done : (secrets.at tenant (claim_name id)).update (record x { value = u }) s
        ≡ (updated, t)) where
    other_tenant :
        (other : Text)
        → tenant ≢ other
        → Dict.get m.onboarding_claims id ≡ some v
        → v.tenant ≡ tenant
        → w.tenant ≡ tenant
        → AgreesAfter other id
    unfolding Represents
    other_tenant other n found same owner =
        let kept =
          reliable.others tenant (claim_name id) other (claim_name id) (record x { value = u }) s t
            done (inl n) in
        let before =
          subst (Agrees layout other id ((secrets.at other (claim_name id)).get s)) found
            (rep other id) in
        rw (kept, get-put_same m.onboarding_claims id w)
          (elsewhere layout tenant other id ((secrets.at other (claim_name id)).get s) v w n same
            owner before)

    other_claim : (other asked : Text) → id == asked ≡ false → AgreesAfter other asked
    unfolding Represents
    other_claim other asked h =
        let n : id ≢ asked = (λ e. ground (arith, h, (eq_iff id asked).1 e)) in
        let kept =
          reliable.others tenant (claim_name id) other (claim_name asked) (record x { value = u }) s
            t done (inr (λ e. n (claim_name_inj id asked e))) in
        rw (kept, get-put_other m.onboarding_claims id w asked h) (rep other asked)

    -- The stores represent each other after the same claim was used in both.
    Represents-used :
        (secrets.at tenant (claim_name id)).get t ≡ some y
        → y.value ≡ u
        → Dict.get m.onboarding_claims id ≡ some v
        → v.tenant ≡ tenant
        → (w.tenant ≡ tenant) × IsSecretOf layout id u w
        → Represents layout secrets t
            (record m { onboarding_claims = Dict.put m.onboarding_claims id w })
    unfolding Represents
    Represents-used read content found same (owner, holds) other asked =
        elim (Bool-cases (id == asked)) [
          | inr differs ↦ other_claim other asked differs
          | inl equal ↦
              subst (AgreesAfter other) ((eq_iff id asked).0 equal)
                (elim (Bool-cases (tenant == other)) [
                  | inl here ↦
                      subst (λ n. AgreesAfter n id) ((eq_iff tenant other).0 here)
                        (own_agrees read content (owner, holds))
                  | inr there ↦
                      other_tenant other (λ e. ground (arith, there, (eq_iff tenant other).1 e))
                        found same owner
                ])
        ]

module _ (layout : Rfc3339) (stamp : Time → Text)
    (stamped : (t : Time) → is_empty (stamp t) ≡ false) {S : Type 0} (secrets : Secrets S)
    (reliable : IsReliable secrets) (codec : Codec) (failure : Error) where
  -- The same result, and states that represent each other.
  pub record IsRefined (a : Result OnboardingClaim × S) (b : Result OnboardingClaim × MemoryStore)
      : Type 0 where
    pub result : a.0 ≡ b.0
    pub represents : Represents layout secrets a.1 b.1

  module _ (tenant id hash : Text) (now : Time) (nonzero : is_zero now ≡ false) (s : S)
      (m : MemoryStore) (rep : Represents layout secrets s m) where
    abbrev shown : Result Secret × S → Result OnboardingClaim × S
    shown o = (map_result (used_claim layout tenant id hash now) o.0, o.1)

    abbrev in_kubernetes : Result Secret × S
    in_kubernetes = looped layout stamp tenant id hash now secrets failure s

    IsRefined-missing :
        (secrets.at tenant (claim_name id)).get s ≡ none
        → IsRefined (shown in_kubernetes) (Store.consume_onboarding_claim tenant id hash now m)
    unfolding Represents map_result
    IsRefined-missing e =
        let a =
          subst (λ o. Agrees layout tenant id o (Dict.get m.onboarding_claims id)) e
            (rep tenant id) in
        rw
          (
            looped_missing layout stamp tenant id hash now secrets failure s e,
            refused_in_memory layout stamp tenant id hash now (Dict.get m.onboarding_claims id) m
                refl a,
          )
          (record { result = refl; represents = rep })

    IsRefined-checked :
        (x : Versioned Secret) (v : OnboardingClaim) (r : Result Secret)
        (c : Result OnboardingClaim)
        → (secrets.at tenant (claim_name id)).get s ≡ some x
        → Dict.get m.onboarding_claims id ≡ some v
        → (v.tenant ≡ tenant) × IsSecretOf layout id x.value v
        → check_secret layout stamp hash now x.value ≡ r
        → claim_check v tenant hash now ≡ c
        → map_result (used_claim layout tenant id hash now) r ≡ c
        → IsRefined (shown in_kubernetes) (store_claim id c m)
    unfolding store_claim map_result
    IsRefined-checked x v (ok u) (ok w) e f (same, h) g k agree =
        let (t, y, done, read, content) = reliable.stored tenant (claim_name id) x u s e in
        rw (looped_done layout stamp tenant id hash now secrets failure s t x u e g done) (record {
          result = agree;
          represents =
              Represents-used layout secrets reliable tenant id s t m x y u v w rep done read
                content f same
                (written_agrees layout stamp tenant id hash now x.value v same h u w (stamped now)
                  nonzero g k);
        })
    IsRefined-checked x v (err q) (err p) e f (same, h) g k agree =
        rw (looped_refused layout stamp tenant id hash now secrets failure s x q e g)
          (record { result = agree; represents = rep })
    IsRefined-checked x v (ok u) (err p) e f (same, h) g k agree = absurd cc
    IsRefined-checked x v (err q) (ok w) e f (same, h) g k agree = absurd cc

    IsRefined-found :
        (x : Versioned Secret) (o : Option OnboardingClaim)
        → (secrets.at tenant (claim_name id)).get s ≡ some x
        → Dict.get m.onboarding_claims id ≡ o
        → Agrees layout tenant id (some x) o
        → IsRefined (shown in_kubernetes) (Store.consume_onboarding_claim tenant id hash now m)
    unfolding Agrees
    IsRefined-found x none e f a = absurd a
    IsRefined-found x (some v) e f (same, h) =
        rw (found_in_memory layout stamp tenant id hash now v m f) (
          IsRefined-checked x v (check_secret layout stamp hash now x.value)
            (claim_check v tenant hash now) e f (same, h) refl refl
            (checks_agree layout stamp tenant id hash now x.value v same h))

    -- Over an API server that answers and that no one else writes to, and at a time other than the zero
    -- time: where its secrets represent the claims in memory, consuming a claim has the same result in
    -- the Kubernetes store as in memory, errors included, and the secrets represent the memory after it.
    pub consume_onboarding_claim-IsRefined :
        IsRefined
          (consume_onboarding_claim secrets layout codec stamp failure tenant id hash now s)
          (Store.consume_onboarding_claim tenant id hash now m)
    unfolding consume_onboarding_claim Represents
    consume_onboarding_claim-IsRefined =
        elim (Option-cases ((secrets.at tenant (claim_name id)).get s)) [
          | inl e ↦ IsRefined-missing e
          | inr (x, e) ↦ IsRefined-found x (Dict.get m.onboarding_claims id) e refl (
              subst (λ o. Agrees layout tenant id o (Dict.get m.onboarding_claims id)) e
                (rep tenant id))
        ]
