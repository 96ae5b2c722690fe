-- ===== src/Examples/Racing.antt =====
-- Processes that race for one object, on an API server that keeps it in a variable.
use among_clusters.Prelude.{
  ℕ, suc, ◌+◌, ◌%◌, ◌^◌, ◌≤◌, ◌<◌, ◌≡◌, ◌⊎◌, refl, inl, Option, none, some, List, [], ◌∷◌, nat_eq,
  nat_eq_iff, arith, if◌then◌else◌,
}
use among_clusters.Prelude.Int.{pos, ltb_ℤ}
use among_clusters.Text.{Text, codes, ◌==◌, is_empty}
use among_clusters.Time.{Time, before}
use among_clusters.Result.{Result, invalid_claim}
use among_clusters.Reconciler.{Rfc3339, parse_or_zero}
use among_clusters.Versioned.{Versioned, updated, conflict, failed, Api, Wrote, IsOptimistic}
use among_clusters.Versioned.Interleaving
use among_clusters.Versioned.Interleaving.{
  Progress, finished, reading, Event, act, touch, System, run, start,
}
use among_clusters.Versioned.Rounds
use among_clusters.Versioned.Linear.SingleUse
use among_clusters.Kubernetes.Secrets.{Secret, check_secret}
use among_clusters.Kubernetes.Secrets.Claims
use among_clusters.Kubernetes.Secrets.Claims.{
  Request, IsGranted, Gets, check_of, claim_single_winner, claim_request_ends,
}
use among_clusters.Kubernetes.Generations
use among_clusters.Kubernetes.Generations.{IdentityStatus, uint64}
use among_clusters.Kubernetes.Generations.Ascending
use among_clusters.Kubernetes.Generations.Ascending.{
  Message, Ascending, recorded, record_generation-Ascending,
}
use among_clusters.Examples.Fixtures.{noon, later_that_day}

-- The server has the object or not; an Update of another version is a conflict.
abbrev variable : {V : Type 0} → Api (Option (Versioned V)) V
variable = record {
  get = λ s. s;
  update = λ v s. elim s [
    | none ↦ (failed, none)
    | some c ↦
        if nat_eq c.version v.version
        then (updated, some (record { version = suc c.version; value = v.value }))
        else (conflict, some c)
  ];
}

module _ {V : Type 0} where
  variable_done :
      (v : Versioned V) (s t : Option (Versioned V))
      → variable.update v s ≡ (updated, t)
      → Wrote (λ o. o) v s t
  variable_done v none t h = absurd (ground (arith, h))
  variable_done v (some c) t h = record {
    old = c;
    new = record { version = suc c.version; value = v.value };
    before = refl;
    same_version = ground (arith, h, nat_eq_iff c.version v.version);
    after = ground (arith, h);
    content = refl;
    higher = omega arith;
  }

  variable_conflict :
      (v : Versioned V) (s t : Option (Versioned V)) → variable.update v s ≡ (conflict, t) → t ≡ s
  variable_conflict v none t h = absurd (ground (arith, h))
  variable_conflict v (some c) t h = ground (arith, h)

  variable_failed :
      (v : Versioned V) (s t : Option (Versioned V))
      → variable.update v s ≡ (failed, t)
      → (t ≡ s) ⊎ Wrote (λ o. o) v s t
  variable_failed v none t h = inl (ground (arith, h))
  variable_failed v (some c) t h = absurd (ground (arith, h))

  variable-IsOptimistic : IsOptimistic (variable {V = V}) (λ o. o)
  variable-IsOptimistic = record {
    get_held = λ s v h. h;
    update_done = variable_done;
    update_conflict = variable_conflict;
    update_failed = variable_failed;
  }

abbrev layout : Rfc3339
layout = record { parse = λ t. some later_that_day; format = λ t. codes "later" }

abbrev stamp : Time → Text
stamp t = codes "now"

abbrev secret : Versioned Secret
secret = record {
  version = 7;
  value = record {
    token_hash = codes "hash";
    cluster_id = codes "beta";
    region = codes "eu";
    capabilities = [];
    expires_at = codes "later";
    used_at = [];
  };
}

abbrev requests : ℕ → Request
requests i = record { hash = codes "hash"; now = noon }

-- Both requests read; another writer rewrites the object, the first request has a conflict, reads again
-- and writes; the second one loses.
abbrev race : List Event
race = act 0 ∷ act 1 ∷ touch ∷ act 0 ∷ act 0 ∷ act 0 ∷ act 1 ∷ act 1 ∷ []

unfoldable race_code : Unit {0}
unfolding ◌==◌ is_empty before ltb_ℤ parse_or_zero check_secret check_of Claims.served Gets
    SingleUse.succeeded? Interleaving.after_check Interleaving.after_get Interleaving.after_write
    Interleaving.proceed Interleaving.set_worker Interleaving.touched Interleaving.happen
    Interleaving.run Interleaving.wins Interleaving.event_wins Interleaving.winners uint64
    Rounds.steps_of Ascending.recorded
race_code = tt

abbrev first : ℕ
first = 0

first-Gets : Gets layout stamp requests variable invalid_claim race (some secret) first
unfolding race_code
first-Gets = refl

claim_single_winner_example : IsGranted layout (requests first) secret.value × (first ≡ first)
unfolding is_empty
claim_single_winner_example =
    claim_single_winner layout stamp (λ t. refl) requests variable (λ o. o) variable-IsOptimistic
      invalid_claim race secret (some secret) first first refl first-Gets first-Gets

-- The first request takes seven steps.
abbrev seven_steps : List Event
seven_steps = act 0 ∷ touch ∷ act 1 ∷ act 0 ∷ act 0 ∷ act 1 ∷ act 0 ∷ act 0 ∷ act 0 ∷ act 0 ∷ []

enough_steps : 7 ≤ Rounds.steps_of 0 seven_steps
unfolding race_code
enough_steps = omega arith

claim_request_ends_example :
    (r : Result Secret) × ((Claims.served layout stamp requests variable invalid_claim seven_steps
          (some secret)).workers
        first
      ≡ finished r)
claim_request_ends_example =
    claim_request_ends layout stamp requests variable invalid_claim seven_steps (some secret) first
      enough_steps

abbrev status : Versioned IdentityStatus
status = record {
  version = 3;
  value = record {
    generation = pos 1;
    last_generation = pos 4;
    last_nonce = codes "alpha-4";
    state = codes "Ready";
    last_seen_at = codes "later";
    observed_generation = pos 1;
  };
}

-- The message `i` has the generation 5 + i.
abbrev messages : ℕ → Message
messages i = record { generation = (5 + i) % 2 ^ 64; nonce = codes "alpha"; now = noon }

messages_in_range : (i : ℕ) → (messages i).generation < 2 ^ 64
messages_in_range i = omega arith

-- The second message is recorded while the first one waits, which then has a conflict; the third one
-- comes last.
abbrev messages_race : List Event
messages_race = act 0 ∷ act 1 ∷ act 1 ∷ act 0 ∷ act 2 ∷ act 2 ∷ []

recorded_generations :
    recorded layout messages variable invalid_claim invalid_claim messages_race (some status)
    ≡ 6 ∷ 7 ∷ []
unfolding race_code Generations.check_generation Generations.int64 Ascending.check_of
recorded_generations = refl

record_generation-Ascending_example :
    Ascending
      (uint64 (pos 4))
      (recorded layout messages variable invalid_claim invalid_claim messages_race (some status))
record_generation-Ascending_example =
    record_generation-Ascending layout messages messages_in_range variable (λ o. o)
      variable-IsOptimistic invalid_claim invalid_claim messages_race status (some status) refl
