-- ===== src/Versioned/Rounds.antt =====
-- No process goes on for ever: with `n` attempts it ends within 2n + 1 steps, whatever the others do.
use among_clusters.Prelude.{
  ℕ, zero, suc, ◌+◌, ◌*◌, ◌-◌, ◌≤◌, ◌≡◌, refl, Option, none, some, List, [], ◌∷◌, nat_eq,
  nat_eq_iff, ap, Bool-cases, inl, inr, arith, if◌then◌else◌,
}
use among_clusters.Result.{Result, Error, ok, err}
use among_clusters.Versioned.{Versioned, Update, updated, conflict, failed, Api}
use among_clusters.Versioned.Interleaving.{
  Progress, reading, holding, finished, proceed, after_check, after_get, after_write, System, Event,
  act, touch, set_worker, happen, run,
}

-- The steps that a process has left at most.
unfoldable pub left : {V : Type 0} → Progress V → ℕ
left (reading n) = 2 * n + 1
left (holding n v u) = 2 * n + 2
left (finished r) = 0

-- The steps of the process in a run.
unfoldable pub steps_of : ℕ → List Event → ℕ
steps_of i [] = 0
steps_of i (touch ∷ es) = steps_of i es
steps_of i (act j ∷ es) = let rest = steps_of i es in if nat_eq j i then suc rest else rest

steps_of-cons :
    (i : ℕ) (e : Event) (es : List Event)
    → steps_of i (e ∷ es) ≡ steps_of i (e ∷ []) + steps_of i es
unfolding steps_of
steps_of-cons i touch es = omega arith
steps_of-cons i (act j) es = ground arith

finished_of_left : {V : Type 0} (p : Progress V) → left p ≡ 0 → (r : Result V) × (p ≡ finished r)
unfolding left
finished_of_left (reading n) h = absurd (omega arith)
finished_of_left (holding n v u) h = absurd (omega arith)
finished_of_left (finished r) h = (r, refl)

module _ {S V : Type 0} (api : Api S V) (missing clash failure : Error) where
  left-after_check : (n : ℕ) (v : Versioned V) (r : Result V) → left (after_check n v r) ≤ 2 * n + 2
  unfolding after_check left
  left-after_check n v (ok u) = omega arith
  left-after_check n v (err e) = omega arith

  left-after_get :
      (check : V → Result V) (n : ℕ) (o : Option (Versioned V))
      → left (after_get missing check n o) ≤ 2 * n + 2
  unfolding after_get left
  left-after_get check n none = omega arith
  left-after_get check n (some v) = left-after_check n v (check v.value)

  left-after_write :
      (n : ℕ) (u : V) (o : Update × S) → left (after_write failure n u o).0 ≤ 2 * n + 1
  unfolding after_write left
  left-after_write n u (updated, t) = omega arith
  left-after_write n u (conflict, t) = omega arith
  left-after_write n u (failed, t) = omega arith

  left-proceed :
      (check : V → Result V) (p : Progress V) (s : S)
      → left (proceed api missing clash failure check p s).0 ≤ left p - 1
  unfolding proceed left
  left-proceed check (reading zero) s = omega arith
  left-proceed check (reading (suc n)) s = omega (arith, left-after_get check n (api.get s))
  left-proceed check (holding n v u) s =
      omega (arith, left-after_write n u (api.update (record v { value = u }) s))
  left-proceed check (finished r) s = omega arith

module _ {S V : Type 0} (api : Api S V) (check : ℕ → V → Result V) (missing clash failure : Error)
    (i : ℕ) where
  left-happen :
      (e : Event) (sys : System S V)
      → left ((happen api check missing clash failure e sys).workers i)
        ≤ left (sys.workers i) - steps_of i (e ∷ [])
  unfolding happen steps_of set_worker
  left-happen touch sys = omega arith
  left-happen (act j) sys =
      let stepped = left-proceed api missing clash failure (check j) (sys.workers j) sys.server in
      elim (Bool-cases (nat_eq j i)) [
        | inl same ↦
            let here : j ≡ i = (nat_eq_iff j i).0 same in
            let there = ap (λ k. left (sys.workers k)) here in ground (arith, stepped, there)
        | inr other ↦ ground (arith, other)
      ]

  left-run :
      (es : List Event) (sys : System S V)
      → left ((run api check missing clash failure es sys).workers i)
        ≤ left (sys.workers i) - steps_of i es
  unfolding run steps_of
  left-run [] sys = omega arith
  left-run (e ∷ es) sys = omega (
    arith,
    left-run es (happen api check missing clash failure e sys),
    left-happen e sys,
    steps_of-cons i e es,
  )

  -- A process that starts with `n` attempts has ended, with a result or an error, in every run in which
  -- it takes 2n + 1 steps, whatever the other processes and writers do in between.
  pub process_ends :
      (n : ℕ) (es : List Event) (sys : System S V)
      → sys.workers i ≡ reading n
      → 2 * n + 1 ≤ steps_of i es
      → (r : Result V) × ((run api check missing clash failure es sys).workers i ≡ finished r)
  unfolding left
  process_ends n es sys start enough =
      let begin : left (sys.workers i) ≡ 2 * n + 1 = rw start in
      finished_of_left ((run api check missing clash failure es sys).workers i)
        (omega (arith, left-run es sys, begin, enough))
