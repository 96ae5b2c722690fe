-- ===== src/Versioned/Linear/Runs.antt =====
-- Whole runs: the history of the object, and who stands in it.
use among_clusters.Prelude.{
  ℕ, ◌<◌, ◌≡◌, refl, sym, ◌∙◌, ap, Option, some, List, [], ◌∷◌, nat_eq, nat_eq_iff, arith,
  Bool-cases, Option-cases, inl, inr, subst,
}
use among_clusters.Result.{Result, Error}
use among_clusters.Versioned.{
  Versioned, Update, updated, conflict, failed, Api, Wrote, IsOptimistic,
}
use among_clusters.Versioned.Interleaving.{
  proceed, System, Event, act, touch, set_worker, touched, happen, run, event_wins, winners, start,
}
use among_clusters.Versioned.Linear.{
  History, unchanged, join, Later, Later-refl, Later-trans, Later-higher, Knows, Knows-Later, Moved,
  proceed_moved, proceed-Knows,
}

set_worker_same : {A : Type 0} (f : ℕ → A) (i : ℕ) (p : A) → set_worker f i p i ≡ p
unfolding set_worker
set_worker_same f i p = ground (arith, (nat_eq_iff i i).1 refl)

module _ {S V : Type 0} (api : Api S V) (held : S → Option (Versioned V))
    (sound : IsOptimistic api held) (check : ℕ → V → Result V) (missing clash failure : Error) where
  -- Every process knows what it is about to write.
  unfoldable pub IsInformed : Versioned V → System S V → Type 0
  IsInformed c sys = (i : ℕ) → Knows (check i) c (sys.workers i)

  pub start-IsInformed :
      (attempts : ℕ → ℕ) (c : Versioned V) (s : S) → IsInformed c (start attempts s)
  unfolding IsInformed Knows
  start-IsInformed attempts c s i = tt

  IsInformed-Later :
      (c d : Versioned V) (sys : System S V) → Later c d → IsInformed c sys → IsInformed d sys
  unfolding IsInformed
  IsInformed-Later c d sys l all i = Knows-Later (check i) c d (sys.workers i) l (all i)

  module _ (c v : Versioned V) (s : S) (holds : held s ≡ some c) where
    stays : (t : S) → held t ≡ held s → Moved api held sound check missing clash failure [] c t
    stays t e = record { object = c; here = e ∙ holds; later = Later-refl c; history = unchanged }

    rewritten :
        (t : S) → v ≡ c → Wrote held v s t → Moved api held sound check missing clash failure [] c t
    rewritten t same w =
        let old : w.old ≡ c = (let e : some w.old ≡ some c = sym w.before ∙ holds in cc) in
        record {
          object = w.new;
          here = w.after;
          later = Later-higher c w.new (subst (λ o. o.version < w.new.version) old w.higher);
          history =
              subst (History check [] c.value)
                (sym (w.content ∙ ap (λ (o : Versioned V). o.value) same)) unchanged;
        }

    touch_update :
        (o : Update × S)
        → v ≡ c
        → api.update v s ≡ o
        → Moved api held sound check missing clash failure [] c o.1
    touch_update (updated, t) same e = rewritten t same (sound.update_done v s t e)
    touch_update (conflict, t) same e = stays t (sound.update_conflict v s t e)
    touch_update (failed, t) same e = elim (sound.update_failed v s t e) [
      | inl kept ↦ stays t kept
      | inr w ↦ rewritten t same w
    ]

  module _ (c : Versioned V) (s : S) (holds : held s ≡ some c) where
    touch_moved :
        Moved api held sound check missing clash failure [] c
          (touched api check missing clash failure s)
    unfolding touched
    touch_moved = elim (Option-cases (api.get s)) [
      | inl e ↦ rw (e, touched) (stays c c s holds s refl)
      | inr (v, e) ↦
          let same : v ≡ c = (let r : some v ≡ some c = sym (sound.get_held s v e) ∙ holds in cc) in
          rw (e, touched) (touch_update c v s holds (api.update v s) same refl)
    ]

  -- One event: the object moves by the processes that the event makes succeed.
  event_moved :
      (e : Event) (c : Versioned V) (sys : System S V)
      → held sys.server ≡ some c
      → IsInformed c sys
      → Moved api held sound check missing clash failure
          (event_wins api check missing clash failure e sys)
          c
          (happen api check missing clash failure e sys).server
  unfolding happen event_wins IsInformed
  event_moved touch c sys holds knows = touch_moved c sys.server holds
  event_moved (act i) c sys holds knows =
      proceed_moved api held sound check missing clash failure i c sys.server holds (sys.workers i)
        (knows i)

  happen-IsInformed :
      (e : Event) (c : Versioned V) (sys : System S V)
      → held sys.server ≡ some c
      → IsInformed c sys
      → IsInformed c (happen api check missing clash failure e sys)
  unfolding happen IsInformed set_worker
  happen-IsInformed touch c sys holds knows j = knows j
  happen-IsInformed (act i) c sys holds knows j = elim (Bool-cases (nat_eq i j)) [
    | inl same ↦
        let here : i ≡ j = (nat_eq_iff i j).0 same in
        subst
          (λ k. Knows (check k) c (
            set_worker sys.workers i
              (proceed api missing clash failure (check i) (sys.workers i) sys.server).0 k))
          here
          (subst (Knows (check i) c) (sym (set_worker_same sys.workers i _)) (
            proceed-Knows api held sound check missing clash failure i c sys.server holds
              (sys.workers i)))
    | inr other ↦ rw other (knows j)
  ]

  -- A run of processes that start from the beginning leads from the object at the start to the one at
  -- the end by the checks of the processes that succeed in it, in the order in which they do, and of
  -- those that got an error although their Update took effect.
  pub run_moved :
      (es : List Event) (c : Versioned V) (sys : System S V)
      → held sys.server ≡ some c
      → IsInformed c sys
      → Moved api held sound check missing clash failure
          (winners api check missing clash failure es sys)
          c
          (run api check missing clash failure es sys).server
  unfolding run winners
  run_moved [] c sys holds knows = stays c c sys.server holds sys.server refl
  run_moved (e ∷ es) c sys holds knows =
      let first = event_moved e c sys holds knows in
      let next =
        run_moved es first.object (happen api check missing clash failure e sys) first.here
          (IsInformed-Later c first.object _ first.later (happen-IsInformed e c sys holds knows)) in
      record {
        object = next.object;
        here = next.here;
        later = Later-trans c first.object next.object first.later next.later;
        history = join check first.history next.history;
      }
