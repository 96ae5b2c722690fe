-- ===== src/Versioned/Linear.antt =====
-- The runs of several processes on one object are linear: the content at the end comes from the content
-- at the start by checks that succeeded, one after the other, each on the content that the one before
-- it left.
pub mod Runs
pub mod SingleUse
use among_clusters.Prelude.{
  ℕ, zero, suc, ◌<◌, ◌≤◌, ◌≡◌, ◌⊎◌, refl, sym, ◌∙◌, ap, Bool, true, false, Option, none, some, List,
  [], ◌∷◌, ◌++◌, nat_eq, nat_eq_iff, arith, if◌then◌else◌, Bool-cases, Option-cases, inl, inr,
  subst,
}
use among_clusters.Result.{Result, Error, ok, err}
use among_clusters.Versioned.{
  Versioned, Update, updated, conflict, failed, Api, Wrote, IsOptimistic,
}
use among_clusters.Versioned.Interleaving.{
  Progress, reading, holding, finished, proceed, after_check, after_get, after_write, System, Event,
  act, touch, set_worker, touched, happen, run, wins, event_wins, winners,
}

-- The content went from the one value to the other by the checks of the listed processes, in order,
-- and by those of processes that got an error although their Update took effect.
pub data History {V : Type 0} (check : ℕ → V → Result V) : List ℕ → V → V → Type 0 where
  unchanged : {v : V} → History check [] v v
  won :
      {l : List ℕ} {v u w : V} (i : ℕ)
      → check i v ≡ ok u
      → History check l u w
      → History check (i ∷ l) v w
  unanswered :
      {l : List ℕ} {v u w : V} (i : ℕ)
      → check i v ≡ ok u
      → History check l u w
      → History check l v w

module _ {V : Type 0} (check : ℕ → V → Result V) where
  pub join :
      {k l : List ℕ} {u v w : V}
      → History check k u v
      → History check l v w
      → History check (k ++ l) u w
  join unchanged h = h
  join (won i c g) h = won i c (join g h)
  join (unanswered i c g) h = unanswered i c (join g h)

-- The one version is that of the other, or an older one.
abbrev pub Later : {V : Type 0} → Versioned V → Versioned V → Type 0
Later c d = (c.version ≤ d.version) × (c.version ≡ d.version → c ≡ d)

pub Later-refl : {V : Type 0} (c : Versioned V) → Later c c
Later-refl c = (omega arith, λ _. refl)

Later-higher : {V : Type 0} (c d : Versioned V) → c.version < d.version → Later c d
Later-higher c d h = (omega (arith, h), λ e. absurd (omega (arith, h, e)))

pub Later-trans : {V : Type 0} (b c d : Versioned V) → Later b c → Later c d → Later b d
Later-trans b c d (m, f) (n, g) =
    (omega (arith, m, n), λ e. f (omega (arith, m, n, e)) ∙ g (omega (arith, m, n, e)))

-- What a process that is about to write knows of the object `c`: it read this version or an older one,
-- and its check yielded what it writes.
unfoldable pub Knows : {V : Type 0} → (V → Result V) → Versioned V → Progress V → Type 0
Knows check c (reading n) = Unit {0}
Knows check c (holding n v u) = Later v c × (check v.value ≡ ok u)
Knows check c (finished r) = Unit {0}

pub Knows-Later :
    {V : Type 0} (check : V → Result V) (c d : Versioned V) (p : Progress V)
    → Later c d
    → Knows check c p
    → Knows check d p
unfolding Knows
Knows-Later check c d (reading n) l h = tt
Knows-Later check c d (holding n v u) l (m, e) = (Later-trans v c d m l, e)
Knows-Later check c d (finished r) l h = tt

module _ {S V : Type 0} (api : Api S V) (held : S → Option (Versioned V))
    (sound : IsOptimistic api held) (check : ℕ → V → Result V) (missing clash failure : Error) where
  -- From the object `c`, an event with the listed winners leads to the object `object` in the server `t`.
  pub record Moved (l : List ℕ) (c : Versioned V) (t : S) : Type 0 where
    pub object : Versioned V
    pub here : held t ≡ some object
    pub later : Later c object
    pub history : History check l c.value object.value

  module _ (i : ℕ) (c : Versioned V) (s : S) (holds : held s ≡ some c) where
    pub rest : Moved [] c s
    rest = record { object = c; here = holds; later = Later-refl c; history = unchanged }

    pub rest_at : (t : S) → held t ≡ held s → Moved [] c t
    rest_at t e = record { object = c; here = e ∙ holds; later = Later-refl c; history = unchanged }

    module _ (n : ℕ) (v : Versioned V) (u : V) (knows : Later v c × (check i v.value ≡ ok u)) where
      -- What an Update that took effect shows: it wrote over the object that was read.
      module _ (t : S) (w : Wrote held (record v { value = u }) s t) where
        same_object : w.old ≡ c
        same_object = let e : some w.old ≡ some c = sym w.before ∙ holds in cc

        read_object : v ≡ c
        read_object =
            knows.0.1 (sym w.same_version ∙ ap (λ (o : Versioned V). o.version) same_object)

        check_object : check i c.value ≡ ok w.new.value
        check_object =
            ap (λ (o : Versioned V). check i o.value) (sym read_object)
            ∙ (knows.1 ∙ ap ok (sym w.content))

        Later-object : Later c w.new
        Later-object =
            Later-higher c w.new (subst (λ o. o.version < w.new.version) same_object w.higher)

        win : Moved (i ∷ []) c t
        win = record {
          object = w.new;
          here = w.after;
          later = Later-object;
          history = won i check_object unchanged;
        }

        loss : Moved [] c t
        loss = record {
          object = w.new;
          here = w.after;
          later = Later-object;
          history = unanswered i check_object unchanged;
        }

      write_moved :
          (o : Update × S)
          → api.update (record v { value = u }) s ≡ o
          → Moved
              (wins i (holding n v u) (after_write failure n u o).0)
              c
              (after_write failure n u o).1
      unfolding after_write wins
      write_moved (updated, t) e = win t (sound.update_done (record v { value = u }) s t e)
      write_moved (conflict, t) e = rest_at t (sound.update_conflict (record v { value = u }) s t e)
      write_moved (failed, t) e = elim (sound.update_failed (record v { value = u }) s t e) [
        | inl same ↦ rest_at t same
        | inr w ↦ loss t w
      ]

    pub proceed_moved :
        (p : Progress V)
        → Knows (check i) c p
        → Moved
            (wins i p (proceed api missing clash failure (check i) p s).0)
            c
            (proceed api missing clash failure (check i) p s).1
    unfolding proceed Knows wins
    proceed_moved (reading zero) h = rest
    proceed_moved (reading (suc n)) h = rest
    proceed_moved (holding n v u) h =
        write_moved n v u h (api.update (record v { value = u }) s) refl
    proceed_moved (finished r) h = rest

  -- What a process knows after its own step, of the object before the step.
  module _ (i : ℕ) (c : Versioned V) (s : S) (holds : held s ≡ some c) where
    check-Knows :
        (n : ℕ) (r : Result V) → check i c.value ≡ r → Knows (check i) c (after_check n c r)
    unfolding after_check Knows
    check-Knows n (ok u) e = (Later-refl c, e)
    check-Knows n (err x) e = tt

    get-Knows :
        (n : ℕ) (o : Option (Versioned V))
        → api.get s ≡ o
        → Knows (check i) c (after_get missing (check i) n o)
    unfolding after_get Knows
    get-Knows n none e = tt
    get-Knows n (some v) e =
        let same : c ≡ v = (let r : some c ≡ some v = sym holds ∙ sound.get_held s v e in cc) in
        subst (λ w. Knows (check i) c (after_check n w (check i w.value))) same
          (check-Knows n (check i c.value) refl)

    write-Knows : (n : ℕ) (u : V) (o : Update × S) → Knows (check i) c (after_write failure n u o).0
    unfolding after_write Knows
    write-Knows n u (updated, t) = tt
    write-Knows n u (conflict, t) = tt
    write-Knows n u (failed, t) = tt

    pub proceed-Knows :
        (p : Progress V) → Knows (check i) c (proceed api missing clash failure (check i) p s).0
    unfolding proceed Knows
    proceed-Knows (reading zero) = tt
    proceed-Knows (reading (suc n)) = get-Knows n (api.get s) refl
    proceed-Knows (holding n v u) = write-Knows n u (api.update (record v { value = u }) s)
    proceed-Knows (finished r) = tt
