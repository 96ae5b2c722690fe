-- ===== src/Versioned/Interleaving.antt =====
-- Several processes that change one object at the same time: each Get and each Update is one step, and
-- the steps of the processes come in any order. Other writers may rewrite the object in between.
use among_clusters.Prelude.{
  ℕ, zero, suc, Option, none, some, List, [], ◌∷◌, ◌++◌, nat_eq, if◌then◌else◌,
}
use among_clusters.Result.{Result, Error, ok, err}
use among_clusters.Versioned.{Versioned, Update, updated, conflict, failed, Api}

-- Where a process stands: before a Get with some attempts left, between the Get and the Update with
-- what it read and the new content, or at the end.
pub data Progress (V : Type 0) : Type 0 where
  reading : ℕ → Progress V
  holding : ℕ → Versioned V → V → Progress V
  finished : Result V → Progress V

module _ {V : Type 0} where
  unfoldable pub after_check : ℕ → Versioned V → Result V → Progress V
  after_check n v (ok u) = holding n v u
  after_check n v (err e) = finished (err e)

  unfoldable pub after_get : Error → (V → Result V) → ℕ → Option (Versioned V) → Progress V
  unfolding after_check
  after_get missing check n none = finished (err missing)
  after_get missing check n (some v) = after_check n v (check v.value)

  unfoldable pub after_write : {S : Type 0} → Error → ℕ → V → Update × S → Progress V × S
  after_write failure n u (updated, t) = (finished (ok u), t)
  after_write failure n u (conflict, t) = (reading n, t)
  after_write failure n u (failed, t) = (finished (err failure), t)

-- One step of a process.
module _ {S V : Type 0} (api : Api S V) (missing clash failure : Error) where
  unfoldable pub proceed : (V → Result V) → Progress V → S → Progress V × S
  unfolding after_get after_write
  proceed check (reading zero) s = (finished (err clash), s)
  proceed check (reading (suc n)) s = (after_get missing check n (api.get s), s)
  proceed check (holding n v u) s = after_write failure n u (api.update (record v { value = u }) s)
  proceed check (finished r) s = (finished r, s)

-- The server and the processes, each named by a number.
pub record System (S V : Type 0) : Type 0 where
  pub server : S
  pub workers : ℕ → Progress V

-- The processes before the first Get of each, with the attempts that each makes.
abbrev pub start : {S V : Type 0} → (ℕ → ℕ) → S → System S V
start attempts s = record { server = s; workers = λ i. reading (attempts i) }

-- The process `i` takes a step, or another writer rewrites the object as it is.
pub data Event : Type 0 where
  act : ℕ → Event
  touch : Event

unfoldable pub set_worker {ℓ} : {A : Type ℓ} → (ℕ → A) → ℕ → A → ℕ → A
set_worker f i p j = if nat_eq i j then p else f j

module _ {S V : Type 0} (api : Api S V) (check : ℕ → V → Result V)
    (missing clash failure : Error) where
  unfoldable pub touched : S → S
  touched s = elim (api.get s) [ none ↦ s | some v ↦ (api.update v s).1 ]

  unfoldable pub happen : Event → System S V → System S V
  happen (act i) sys =
      let after = proceed api missing clash failure (check i) (sys.workers i) sys.server in
      record { server = after.1; workers = set_worker sys.workers i after.0 }
  happen touch sys = record sys { server = touched sys.server }

  unfoldable pub run : List Event → System S V → System S V
  run [] sys = sys
  run (e ∷ es) sys = run es (happen e sys)

-- Did the step make the process succeed?
unfoldable pub wins : {V : Type 0} → ℕ → Progress V → Progress V → List ℕ
wins i (finished r) q = []
wins i (reading n) q = []
wins i (holding n v u) (finished (ok w)) = i ∷ []
wins i (holding n v u) (finished (err e)) = []
wins i (holding n v u) (reading m) = []
wins i (holding n v u) (holding m w x) = []

module _ {S V : Type 0} (api : Api S V) (check : ℕ → V → Result V)
    (missing clash failure : Error) where
  unfoldable pub event_wins : Event → System S V → List ℕ
  event_wins touch sys = []
  event_wins (act i) sys =
      wins i (sys.workers i)
        (proceed api missing clash failure (check i) (sys.workers i) sys.server).0

  -- The processes that succeed in a run, in the order in which they do.
  unfoldable pub winners : List Event → System S V → List ℕ
  winners [] sys = []
  winners (e ∷ es) sys =
      event_wins e sys ++ winners es (happen api check missing clash failure e sys)
