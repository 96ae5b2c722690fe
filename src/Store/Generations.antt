-- ===== src/Store/Generations.antt =====
-- RecordGeneration of the store in memory.
use among_clusters.Prelude.{ℕ, ◌<◌, ◌≤◌, ◌≡◌, ◌↔◌, true, false, arith, ◌||◌, ◌&&◌, if◌then◌else◌}
use among_clusters.Text.{Text, ◌==◌}
use among_clusters.Text.Equality.{eq_refl, eq_iff}
use among_clusters.Dict
use among_clusters.Dict.{Dict, get-put, get-empty}
use among_clusters.Result.{ok}
use among_clusters.Store.{
  MemoryStore, key, record_generation, generation_of, nonce_used, make_nonces, add_nonce,
  or_default,
}

has-empty : (n : Text) → Dict.has (Dict.empty {V = Unit {0}}) n ≡ false
unfolding Dict.has
has-empty n = rw (get-empty {V = Unit {0}} n, Dict.has)

has-put :
    (d : Dict (Unit {0})) (k j : Text) → Dict.has (Dict.put d k tt) j ≡ (k == j || Dict.has d j)
unfolding Dict.has Dict.get
has-put d k j = ground (arith, get-put d k j tt)

-- Making the missing map of nonces changes no answer about nonces.
nonce_used-make_nonces :
    (d : Dict (Dict (Unit {0}))) (k j n : Text)
    → nonce_used (make_nonces d k) j n ≡ nonce_used d j n
unfolding nonce_used make_nonces
nonce_used-make_nonces d k j n = ground (arith, get-put d k j Dict.empty, has-empty n, eq_iff k j)

-- A nonce that is added is used under its key, beside those that were used before.
nonce_used-add_nonce :
    (d : Dict (Dict (Unit {0}))) (k nonce j n : Text)
    → nonce_used (add_nonce d k nonce) j n ≡ ((k == j && nonce == n) || nonce_used d j n)
unfolding nonce_used add_nonce
nonce_used-add_nonce d k nonce j n = ground (
  arith,
  get-put d k j (Dict.put (or_default Dict.empty (Dict.get d k)) nonce tt),
  has-put (or_default Dict.empty (Dict.get d k)) nonce n,
  eq_iff k j,
)

module _ (s : MemoryStore) (tenant id nonce : Text) (g : ℕ) where
  abbrev k : Text
  k = key tenant id

  abbrev after : MemoryStore
  after = (record_generation tenant id g nonce s).1

  -- A generation is recorded exactly if it is above the last one and its nonce is new.
  pub record_generation_iff : ((record_generation tenant id g nonce s).0 ≡ ok tt) ↔ (
      (generation_of s.generations (key tenant id) < g)
      × (nonce_used s.nonces (key tenant id) nonce ≡ false))
  unfolding record_generation
  record_generation_iff = (
    (λ h. ground (arith, nonce_used-make_nonces s.nonces k k nonce)),
    (λ h. ground (arith, nonce_used-make_nonces s.nonces k k nonce)),
  )

  -- Recording sets the last generation of its cluster and of no other.
  pub generation_of-record :
      (j : Text)
      → (record_generation tenant id g nonce s).0 ≡ ok tt
      → generation_of (record_generation tenant id g nonce s).1.generations j
        ≡ (if key tenant id == j then g else generation_of s.generations j)
  unfolding record_generation generation_of
  generation_of-record j h = ground (arith, get-put s.generations k j g)

  -- Recording marks its nonce as used.
  pub nonce_used-record :
      (record_generation tenant id g nonce s).0 ≡ ok tt
      → nonce_used (record_generation tenant id g nonce s).1.nonces (key tenant id) nonce ≡ true
  unfolding record_generation
  nonce_used-record h = ground (
    arith,
    nonce_used-make_nonces s.nonces k k nonce,
    nonce_used-add_nonce (make_nonces s.nonces k) k nonce k nonce,
    eq_refl k,
    eq_refl nonce,
  )

  pub generation_grows :
      (j : Text) → generation_of s.generations j ≤ generation_of after.generations j
  unfolding record_generation generation_of
  generation_grows j = ground (arith, get-put s.generations k j g, eq_iff k j)

  pub nonce_stays :
      (j n : Text) → nonce_used s.nonces j n ≡ true → nonce_used after.nonces j n ≡ true
  unfolding record_generation
  nonce_stays j n h = ground (
    arith,
    nonce_used-make_nonces s.nonces k j n,
    nonce_used-add_nonce (make_nonces s.nonces k) k nonce j n,
  )

  pub settled_by_record :
      (after.invitations ≡ s.invitations)
      × (after.onboarding_claims ≡ s.onboarding_claims)
      × (after.identities ≡ s.identities)
  unfolding record_generation
  settled_by_record = ground arith
