-- ===== src/Examples/Claiming.antt =====
-- The two stores at a concrete claim, with an API server that keeps the Secrets in a function.
use among_clusters.Prelude.{
  suc, ◌≡◌, ◌≢◌, ◌⊎◌, refl, ap, ◌∙◌, subst, inl, inr, false, ◌&&◌, Option, none, some, [], arith,
  Bool-cases, if◌then◌else◌, and-eq_true,
}
use among_clusters.Text.{Text, codes, ◌==◌, is_empty}
use among_clusters.Text.Equality.{eq_iff}
use among_clusters.Time.{Time, zero_time, is_zero}
use among_clusters.Dict
use among_clusters.Dict.{get-put, get-empty}
use among_clusters.Model.{OnboardingClaim}
use among_clusters.Result.{ok, invalid_claim}
use among_clusters.Reconciler.{Rfc3339, parse_or_zero}
use among_clusters.Store
use among_clusters.Store.{MemoryStore, init}
use among_clusters.Versioned.{Versioned, Update, updated, failed}
use among_clusters.Kubernetes.Secrets
use among_clusters.Kubernetes.Secrets.{Secret, Secrets, Codec, claim_name, consume_onboarding_claim}
use among_clusters.Kubernetes.Secrets.Refinement.{IsReliable, IsSecretOf, Agrees, Represents}
use among_clusters.Kubernetes.Secrets.Simulation.{
  IsRefined, consume_onboarding_claim-IsRefined, claim_name_inj,
}
use among_clusters.Examples.Fixtures.{noon, later_that_day}

abbrev Shelf : Type 0
Shelf = Text → Text → Option (Versioned Secret)

abbrev shelve : Shelf → Text → Text → Versioned Secret → Shelf
shelve s namespace name v n m = if namespace == n && name == m then some v else s n m

abbrev shelf_update : Text → Text → Versioned Secret → Shelf → Update × Shelf
shelf_update namespace name v s = elim (s namespace name) [
  | none ↦ (failed, s)
  | some c ↦
      (updated, shelve s namespace name (record { version = suc c.version; value = v.value }))
]

abbrev shelves : Secrets Shelf
shelves = record {
  at = λ namespace name. record {
    get = λ s. s namespace name;
    update = shelf_update namespace name;
  };
  create =
      λ namespace name v s. (ok tt, shelve s namespace name (record { version = 1; value = v }));
}

shelve_same :
    (s : Shelf) (namespace name : Text) (v : Versioned Secret)
    → shelve s namespace name v namespace name ≡ some v
shelve_same s namespace name v =
    ground (arith, (eq_iff namespace namespace).1 refl, (eq_iff name name).1 refl)

other_key :
    (namespace name elsewhere other : Text)
    → (namespace ≢ elsewhere) ⊎ (name ≢ other)
    → namespace == elsewhere && name == other ≡ false
other_key namespace name elsewhere other n =
    elim (Bool-cases (namespace == elsewhere && name == other)) [
      | inr e ↦ e
      | inl e ↦
          let (same, equal) = (and-eq_true (namespace == elsewhere) (name == other)).0 e in
          elim n [
            | inl m ↦ absurd (m ((eq_iff namespace elsewhere).0 same))
            | inr m ↦ absurd (m ((eq_iff name other).0 equal))
          ]
    ]

shelf_others :
    (namespace name elsewhere other : Text) (v : Versioned Secret) (s t : Shelf)
    (o : Option (Versioned Secret))
    → s namespace name ≡ o
    → shelf_update namespace name v s ≡ (updated, t)
    → (namespace ≢ elsewhere) ⊎ (name ≢ other)
    → t elsewhere other ≡ s elsewhere other
shelf_others namespace name elsewhere other v s t none e h n = absurd (ground (arith, e, h))
shelf_others namespace name elsewhere other v s t (some c) e h n =
    let new : Versioned Secret = record { version = suc c.version; value = v.value } in
    let result : t ≡ shelve s namespace name new = ground (arith, e, h) in
    let missed = other_key namespace name elsewhere other n in
    ap (λ (f : Shelf). f elsewhere other) result ∙ rw missed refl

shelves-IsReliable : IsReliable shelves
shelves-IsReliable = record {
  stored = λ namespace name v u s h. (
    shelve s namespace name (record { version = suc v.version; value = u }),
    record { version = suc v.version; value = u },
    ground (arith, h),
    shelve_same s namespace name _,
    refl,
  );
  others = λ namespace name elsewhere other v s t h n.
      shelf_others namespace name elsewhere other v s t (s namespace name) refl h n;
}

abbrev layout : Rfc3339
layout = record { parse = λ t. some later_that_day; format = λ t. codes "later" }

abbrev codec : Codec
codec = record { encode = λ l. []; decode = λ t. [] }

abbrev stamp : Time → Text
stamp t = codes "now"

abbrev claim : OnboardingClaim
claim = record {
  id = codes "c1";
  cluster_id = codes "beta";
  region = codes "eu";
  tenant = codes "acme";
  token_hash = codes "hash";
  expires_at = later_that_day;
  used_at = zero_time;
}

abbrev secret : Versioned Secret
secret = record { version = 1; value = Secrets.claim_secret layout claim }

abbrev shelf : Shelf
shelf = shelve (λ n m. none) (codes "acme") (claim_name (codes "c1")) secret

abbrev memory : MemoryStore
memory = record init { onboarding_claims = Dict.put Dict.empty (codes "c1") claim }

holds_claim : IsSecretOf layout (codes "c1") secret.value claim
unfolding Secrets.claim_secret parse_or_zero is_empty is_zero
holds_claim = record {
  same_id = refl;
  same_hash = refl;
  same_cluster = refl;
  same_region = refl;
  same_expiry = refl;
  same_use = refl;
}

in_memory :
    (id : Text)
    → Dict.get memory.onboarding_claims id ≡ (if codes "c1" == id then some claim else none)
in_memory id =
    get-put Dict.empty (codes "c1") id claim
    ∙ ap (λ o. if codes "c1" == id then some claim else o) (get-empty id)

other_claim :
    (tenant id : Text)
    → codes "c1" == id ≡ false
    → Agrees layout tenant id (shelf tenant (claim_name id)) (Dict.get memory.onboarding_claims id)
unfolding Agrees
other_claim tenant id h =
    let differs : claim_name (codes "c1") ≢ claim_name id =
      (λ e. ground (arith, h, (eq_iff (codes "c1") id).1 (claim_name_inj (codes "c1") id e))) in
    let missed =
      other_key (codes "acme") (claim_name (codes "c1")) tenant (claim_name id) (inr differs) in
    let on_shelf : shelf tenant (claim_name id) ≡ none = (rw missed refl) in
    let kept : Dict.get memory.onboarding_claims id ≡ none = (in_memory id ∙ rw h refl) in
    rw (on_shelf, kept) tt

kept_claim : Dict.get memory.onboarding_claims (codes "c1") ≡ some claim
kept_claim = in_memory (codes "c1") ∙ rw ((eq_iff (codes "c1") (codes "c1")).1 refl) refl

acme_claim :
    Agrees layout
      (codes "acme")
      (codes "c1")
      (shelf (codes "acme") (claim_name (codes "c1")))
      (Dict.get memory.onboarding_claims (codes "c1"))
unfolding Agrees
acme_claim =
    rw (shelve_same (λ n m. none) (codes "acme") (claim_name (codes "c1")) secret, kept_claim)
      (refl, holds_claim)

own_claim :
    (tenant : Text)
    → Agrees layout tenant
        (codes "c1")
        (shelf tenant (claim_name (codes "c1")))
        (Dict.get memory.onboarding_claims (codes "c1"))
unfolding Agrees
own_claim tenant = elim (Bool-cases (codes "acme" == tenant)) [
  | inl same ↦
      subst
        (λ n.
          Agrees layout n (codes "c1") (shelf n (claim_name (codes "c1")))
            (Dict.get memory.onboarding_claims (codes "c1")))
        ((eq_iff (codes "acme") tenant).0 same) acme_claim
  | inr other ↦
      let differs : codes "acme" ≢ tenant =
        (λ e. ground (arith, other, (eq_iff (codes "acme") tenant).1 e)) in
      let missed =
        other_key (codes "acme") (claim_name (codes "c1")) tenant (claim_name (codes "c1"))
          (inl differs) in
      let on_shelf : shelf tenant (claim_name (codes "c1")) ≡ none = (rw missed refl) in
      rw (on_shelf, kept_claim) differs
]

shelf-Represents : Represents layout shelves shelf memory
unfolding Represents
shelf-Represents tenant id = elim (Bool-cases (codes "c1" == id)) [
  | inl same ↦
      subst
        (λ i.
          Agrees layout tenant i (shelf tenant (claim_name i))
            (Dict.get memory.onboarding_claims i))
        ((eq_iff (codes "c1") id).0 same) (own_claim tenant)
  | inr other ↦ other_claim tenant id other
]

noon_nonzero : is_zero noon ≡ false
unfolding is_zero
noon_nonzero = refl

stamped : (t : Time) → is_empty (stamp t) ≡ false
unfolding is_empty
stamped t = refl

consume_onboarding_claim-IsRefined_example :
    IsRefined layout stamp stamped shelves shelves-IsReliable codec invalid_claim
      (consume_onboarding_claim shelves layout codec stamp invalid_claim
        (codes "acme")
        (codes "c1")
        (codes "hash")
        noon
        shelf)
      (Store.consume_onboarding_claim (codes "acme") (codes "c1") (codes "hash") noon memory)
consume_onboarding_claim-IsRefined_example =
    consume_onboarding_claim-IsRefined layout stamp stamped shelves shelves-IsReliable codec
      invalid_claim (codes "acme") (codes "c1") (codes "hash") noon noon_nonzero shelf memory
      shelf-Represents
