-- ===== src/Versioned/Linear/SingleUse.antt =====
-- Content that a successful check marks as used, and that no check accepts once it is: at most one of
-- the processes that compete for it succeeds.
use among_clusters.Prelude.{
  ℕ, zero, suc, ◌≡◌, ◌⊎◌, refl, sym, ◌∙◌, ap, Bool, true, false, Option, none, some, List, [], ◌∷◌,
  ◌++◌, nat_eq, nat_eq_iff, arith, Bool-cases, inl, inr, subst, In,
}
use among_clusters.Result.{Result, Error, ok, err}
use among_clusters.Versioned.{Versioned, Update, updated, conflict, failed, Api, IsOptimistic}
use among_clusters.Versioned.Interleaving.{
  Progress, reading, holding, finished, proceed, after_check, after_get, after_write, System, Event,
  act, touch, set_worker, happen, run, wins, event_wins, winners, start,
}
use among_clusters.Versioned.Linear.{History, unchanged, won, unanswered}
use among_clusters.Versioned.Linear.Runs.{run_moved, start-IsInformed}

In_left : {A : Type 0} (a : A) (xs ys : List A) → In a xs → In a (xs ++ ys)
In_left a [] ys m = absurd m
In_left a (x ∷ xs) ys (inl e) = inl e
In_left a (x ∷ xs) ys (inr m) = inr (In_left a xs ys m)

In_right : {A : Type 0} (a : A) (xs ys : List A) → In a ys → In a (xs ++ ys)
In_right a [] ys m = m
In_right a (x ∷ xs) ys m = inr (In_right a xs ys m)

-- The process has ended without an error.
unfoldable pub succeeded? : {V : Type 0} → Progress V → Bool
succeeded? (reading n) = false
succeeded? (holding n v u) = false
succeeded? (finished (ok u)) = true
succeeded? (finished (err e)) = false

module _ {S V : Type 0} (api : Api S V) (missing clash failure : Error) where
  check_fails : (n : ℕ) (v : Versioned V) (r : Result V) → succeeded? (after_check n v r) ≡ false
  unfolding after_check succeeded?
  check_fails n v (ok u) = refl
  check_fails n v (err e) = refl

  get_fails :
      (check : V → Result V) (n : ℕ) (o : Option (Versioned V))
      → succeeded? (after_get missing check n o) ≡ false
  unfolding after_get succeeded?
  get_fails check n none = refl
  get_fails check n (some v) = check_fails n v (check v.value)

  write_wins :
      (i n : ℕ) (v : Versioned V) (u : V) (o : Update × S)
      → succeeded? (after_write failure n u o).0 ≡ true
      → In i (wins i (holding n v u) (after_write failure n u o).0)
  unfolding after_write succeeded? wins
  write_wins i n v u (updated, t) h = inl refl
  write_wins i n v u (conflict, t) h = absurd (ground (arith, h))
  write_wins i n v u (failed, t) h = absurd (ground (arith, h))

  wins-proceed :
      (check : V → Result V) (i : ℕ) (p : Progress V) (s : S)
      → succeeded? (proceed api missing clash failure check p s).0 ≡ true
      → (succeeded? p ≡ true) ⊎ In i (wins i p (proceed api missing clash failure check p s).0)
  unfolding proceed succeeded?
  wins-proceed check i (reading zero) s h = absurd (ground (arith, h))
  wins-proceed check i (reading (suc n)) s h =
      absurd (ground (arith, h, get_fails check n (api.get s)))
  wins-proceed check i (holding n v u) s h =
      inr (write_wins i n v u (api.update (record v { value = u }) s) h)
  wins-proceed check i (finished r) s h = inl h

module _ {S V : Type 0} (api : Api S V) (check : ℕ → V → Result V) (missing clash failure : Error)
    (i : ℕ) where
  event_winner :
      (e : Event) (sys : System S V)
      → succeeded? ((happen api check missing clash failure e sys).workers i) ≡ true
      → (succeeded? (sys.workers i) ≡ true)
        ⊎ In i (event_wins api check missing clash failure e sys)
  unfolding happen event_wins set_worker
  event_winner touch sys h = inl h
  event_winner (act j) sys h = elim (Bool-cases (nat_eq j i)) [
    | inl same ↦
        let here : i ≡ j = sym ((nat_eq_iff j i).0 same) in
        subst
          (λ k.
            (succeeded? (sys.workers k) ≡ true)
            ⊎ In k (
                wins j (sys.workers j)
                  (proceed api missing clash failure (check j) (sys.workers j) sys.server).0))
          (sym here)
          (wins-proceed api missing clash failure (check j) j (sys.workers j) sys.server
            (ground (arith, h, same)))
    | inr other ↦ inl (ground (arith, h, other))
  ]

  -- Whoever has succeeded at the end of a run had succeeded before it or is one of its winners.
  run_winner :
      (es : List Event) (sys : System S V)
      → succeeded? ((run api check missing clash failure es sys).workers i) ≡ true
      → (succeeded? (sys.workers i) ≡ true) ⊎ In i (winners api check missing clash failure es sys)
  unfolding run winners
  run_winner [] sys h = inl h
  run_winner (e ∷ es) sys h =
      let first = event_wins api check missing clash failure e sys in
      let after = happen api check missing clash failure e sys in
      elim (run_winner es after h) [
        | inl early ↦ elim (event_winner e sys early) [
          | inl start ↦ inl start
          | inr m ↦ inr (In_left i first (winners api check missing clash failure es after) m)
        ]
        | inr m ↦ inr (In_right i first (winners api check missing clash failure es after) m)
      ]

-- A successful check finds the content unused and yields content that is used.
unfoldable pub IsSingleUse : {V : Type 0} → (V → Bool) → (ℕ → V → Result V) → Type 0
IsSingleUse used check = (i : ℕ) (v u : _) → check i v ≡ ok u → (used v ≡ false) × (used u ≡ true)

module _ {V : Type 0} (used : V → Bool) (check : ℕ → V → Result V)
    (single : IsSingleUse used check) where
  used_up : (i : ℕ) (l : List ℕ) (v w : V) → History check l v w → used v ≡ true → In i l → ⊥
  unfolding IsSingleUse
  used_up i l v w unchanged e m = m
  used_up i l v w (won {u = u} j c h) e m = ground (arith, e, (single j v u c).0)
  used_up i l v w (unanswered {u = u} j c h) e m = ground (arith, e, (single j v u c).0)

  one_winner : (i j : ℕ) (l : List ℕ) (v w : V) → History check l v w → In i l → In j l → i ≡ j
  unfolding IsSingleUse
  one_winner i j l v w unchanged m n = absurd m
  one_winner i j (k ∷ l) v w (won {u = u} q c h) (inl a) (inl b) = a ∙ sym b
  one_winner i j (k ∷ l) v w (won {u = u} q c h) (inr a) n =
      absurd (used_up i l u w h (single q v u c).1 a)
  one_winner i j (k ∷ l) v w (won {u = u} q c h) (inl a) (inr b) =
      absurd (used_up j l u w h (single q v u c).1 b)
  one_winner i j l v w (unanswered {u = u} k c h) m n =
      absurd (used_up i l u w h (single k v u c).1 m)

module _ {V : Type 0} (used : V → Bool) (check : ℕ → V → Result V)
    (single : IsSingleUse used check) where
  -- A winner's check succeeds on the content from which the history starts.
  first_check :
      (i : ℕ) (l : List ℕ) (v w : V) → History check l v w → In i l → (u : V) × (check i v ≡ ok u)
  unfolding IsSingleUse
  first_check i l v w unchanged m = absurd m
  first_check i (k ∷ l) v w (won {u = u} q c h) (inl a) = (u, ap (λ m. check m v) a ∙ c)
  first_check i (k ∷ l) v w (won {u = u} q c h) (inr a) =
      absurd (used_up used check single i l u w h (single q v u c).1 a)
  first_check i l v w (unanswered {u = u} k c h) m =
      absurd (used_up used check single i l u w h (single k v u c).1 m)

module _ {S V : Type 0} (api : Api S V) (held : S → Option (Versioned V))
    (sound : IsOptimistic api held) (check : ℕ → V → Result V) (missing clash failure : Error)
    (used : V → Bool) (single : IsSingleUse used check) (attempts : ℕ → ℕ) where
  is_winner :
      (i : ℕ) (es : List Event) (s : S)
      → succeeded? ((run api check missing clash failure es (start attempts s)).workers i) ≡ true
      → In i (winners api check missing clash failure es (start attempts s))
  unfolding succeeded?
  is_winner i es s h = elim (run_winner api check missing clash failure i es (start attempts s) h) [
    | inl early ↦ absurd (ground (arith, early))
    | inr m ↦ m
  ]

  -- Whoever succeeds is the only one, and its check succeeds on the content at the start.
  pub single_winner :
      (es : List Event) (c : Versioned V) (s : S) (i : ℕ)
      → held s ≡ some c
      → succeeded? ((run api check missing clash failure es (start attempts s)).workers i) ≡ true
      → ((u : V) × (check i c.value ≡ ok u))
        × ((j : ℕ)
            → succeeded? ((run api check missing clash failure es (start attempts s)).workers j)
              ≡ true
            → j ≡ i)
  single_winner es c s i holds a =
      let moved =
        run_moved api held sound check missing clash failure es c (start attempts s) holds
          (start-IsInformed api held sound check missing clash failure attempts c s) in
      let l = winners api check missing clash failure es (start attempts s) in
      (
        first_check used check single i l c.value moved.object.value moved.history
            (is_winner i es s a),
        (λ j b.
            one_winner used check single j i l c.value moved.object.value moved.history
              (is_winner j es s b) (is_winner i es s a)),
      )
