-- ===== src/Gateway/Sessions.antt =====
-- The registry of sessions: a closed connection is never handed out again, and readiness tells
-- whether an import would find a session.
use among_clusters.Prelude.{
  ℕ, suc, ◌-◌, ◌≤◌, ◌<◌, ◌≡◌, ◌≢◌, refl, ap, ◌↔◌, Bool, true, false, none, some, List, [], ◌∷◌,
  ◌++◌, In, inl, inr, Bool-cases, All, arith, nat_eq, if◌then◌else◌,
}
use among_clusters.Text.{Text, ◌==◌}
use among_clusters.Text.Equality.{eq_iff}
use among_clusters.Dict.{get-put, get-remove}
use among_clusters.Gateway.{
  Connection, Registry, canonical_identity, sessions_at, sessions, put_session, get_session,
  has_session, drop_first, store_sessions, remove_session,
}

sessions_at-store :
    (r : Registry) (key j : Text) (l : List Connection)
    → sessions_at (store_sessions r key l) j ≡ (if key == j then l else sessions_at r j)
unfolding sessions_at store_sessions
sessions_at-store r key j [] = let law = get-remove r key j in ground (arith, law)
sessions_at-store r key j (c ∷ l) = let law = get-put r key j (c ∷ l) in ground (arith, law)

-- Two identities that the registry does not tell apart.
unfoldable pub same_identity : Text → Text → Bool
same_identity i j = canonical_identity i == canonical_identity j

sessions-same : (r : Registry) (i j : Text) → same_identity i j ≡ true → sessions r i ≡ sessions r j
unfolding sessions same_identity
sessions-same r i j h =
    ap (sessions_at r) ((eq_iff (canonical_identity i) (canonical_identity j)).0 h)

-- Every identity's sessions after a change to those of `i`.
changed :
    (r : Registry) (i j : Text) (f : List Connection → List Connection) (r_new : Registry)
    → sessions r_new j ≡ (if same_identity i j then f (sessions r i) else sessions r j)
    → sessions r_new j ≡ (if same_identity i j then f (sessions r j) else sessions r j)
changed r i j f r_new h = elim (Bool-cases (same_identity i j)) [
  | inl e ↦ ground (arith, h, e, ap f (sessions-same r i j e))
  | inr e ↦ ground (arith, h, e)
]

put_lem :
    (r : Registry) (i j : Text) (c : Connection)
    → sessions (put_session r i c) j
      ≡ (if same_identity i j then sessions r i ++ c ∷ [] else sessions r j)
unfolding sessions sessions_at put_session same_identity
put_lem r i j c =
    let law = get-put r (canonical_identity i) (canonical_identity j) (sessions r i ++ c ∷ []) in
    ground (arith, law)

sessions-put :
    (r : Registry) (i j : Text) (c : Connection)
    → sessions (put_session r i c) j
      ≡ (if same_identity i j then sessions r j ++ c ∷ [] else sessions r j)
sessions-put r i j c = changed r i j (λ l. l ++ c ∷ []) (put_session r i c) (put_lem r i j c)

remove_lem :
    (r : Registry) (i j : Text) (c : Connection)
    → sessions (remove_session r i c) j
      ≡ (if same_identity i j then drop_first c (sessions r i) else sessions r j)
unfolding sessions remove_session same_identity
remove_lem r i j c =
    sessions_at-store r (canonical_identity i) (canonical_identity j) (drop_first c (sessions r i))

sessions-remove :
    (r : Registry) (i j : Text) (c : Connection)
    → sessions (remove_session r i c) j
      ≡ (if same_identity i j then drop_first c (sessions r j) else sessions r j)
sessions-remove r i j c = changed r i j (drop_first c) (remove_session r i c) (remove_lem r i j c)

first_iff :
    (l : List Connection)
    → ((elim l [ [] ↦ false | ◌∷◌ c m ↦ true ]) ≡ true)
      ↔ ((c : Connection) × ((elim l [ [] ↦ none | ◌∷◌ d m ↦ some d ]) ≡ some c))
first_iff [] = ((λ h. cc), (λ h. cc (h.1)))
first_iff (c ∷ l) = ((λ h. (c, refl)), (λ h. refl))

-- The registry hands out a session exactly if it says that it has one.
pub has_session_iff :
    (r : Registry) (identity : Text)
    → (has_session r identity ≡ true) ↔ ((c : Connection) × (get_session r identity ≡ some c))
unfolding has_session get_session
has_session_iff r identity = first_iff (sessions r identity)

-- How often the connection stands in the list.
count : Connection → List Connection → ℕ
count c [] = 0
count c (d ∷ l) = let rest = count c l in if nat_eq d c then suc rest else rest

count-append :
    (c d : Connection) (l : List Connection)
    → count c (l ++ d ∷ []) ≡ (if nat_eq d c then suc (count c l) else count c l)
unfolding count
count-append c d [] = refl
count-append c d (e ∷ l) = ground (arith, count-append c d l)

count-drop_first :
    (c d : Connection) (l : List Connection)
    → count c (drop_first d l) ≡ (if nat_eq d c then count c l - 1 else count c l)
unfolding count drop_first
count-drop_first c d [] = ground arith
count-drop_first c d (e ∷ l) = ground (arith, count-drop_first c d l)

-- What happens to the registry: a connection is served under an identity, or it ends (its handler
-- returns, or an import finds that no stream can be opened on it).
pub data Event : Type 0 where
  opened : Text → Connection → Event
  ended : Text → Connection → Event

unfoldable pub happens : Registry → Event → Registry
happens r (opened identity c) = put_session r identity c
happens r (ended identity c) = remove_session r identity c

unfoldable pub all_happen : Registry → List Event → Registry
all_happen r [] = r
all_happen r (e ∷ es) = all_happen (happens r e) es

module _ (c : Connection) where
  -- The event does not open the connection `c`.
  abbrev pub IsOther : Event → Type 0
  IsOther (opened identity d) = c ≢ d
  IsOther (ended identity d) = Unit {0}

  times : Registry → Text → ℕ
  times r j = count c (sessions r j)

  times-happens :
      (r : Registry) (e : Event) (j : Text) → IsOther e → times (happens r e) j ≤ times r j
  unfolding happens times
  times-happens r (opened identity d) j h =
      ground (arith, sessions-put r identity j d, count-append c d (sessions r j))
  times-happens r (ended identity d) j h =
      ground (arith, sessions-remove r identity j d, count-drop_first c d (sessions r j))

  times-all_happen :
      (es : List Event) (r : Registry) (j : Text)
      → All IsOther es
      → times (all_happen r es) j ≤ times r j
  unfolding all_happen
  times-all_happen [] r j h = omega arith
  times-all_happen (e ∷ es) r j h =
      omega (arith, times-all_happen es (happens r e) j h.1, times-happens r e j h.0)

  first_counts :
      (l : List Connection) → elim l [ [] ↦ none | ◌∷◌ d m ↦ some d ] ≡ some c → 0 < count c l
  unfolding count
  first_counts [] h = cc
  first_counts (d ∷ l) h = ground (arith, h)

  count_zero : (l : List Connection) → ¬ In c l → count c l ≡ 0
  unfolding count
  count_zero [] h = refl
  count_zero (d ∷ l) h =
      let rest = count_zero l (λ k. h (inr k)) in
      let differs : c ≢ d = λ e. h (inl e) in ground (arith, rest, differs)

  times-put :
      (r : Registry) (i j : Text)
      → times (put_session r i c) j
        ≡ (if same_identity i j then suc (count c (sessions r j)) else count c (sessions r j))
  unfolding times
  times-put r i j = ground (arith, sessions-put r i j c, count-append c c (sessions r j))

  times-removed :
      (r : Registry) (i j : Text)
      → times (remove_session r i c) j ≡ (if same_identity i j then times r j - 1 else times r j)
  unfolding times
  times-removed r i j = ground (arith, sessions-remove r i j c, count-drop_first c c (sessions r j))

  get_session-times : (r : Registry) (j : Text) → get_session r j ≡ some c → 0 < times r j
  unfolding get_session times
  get_session-times r j h = first_counts (sessions r j) h

  -- Take a connection that no identity has. Once it has been opened under an identity and has ended
  -- under it, no import gets it, whatever other connections are opened and whatever connections end
  -- in between and later.
  pub ended_session :
      (r : Registry) (identity : Text) (between later : List Event)
      → ((j : Text) → ¬ In c (sessions r j))
      → All IsOther between
      → All IsOther later
      → (j : Text)
      → get_session
          (all_happen
            (remove_session (all_happen (put_session r identity c) between) identity c)
            later)
          j
        ≢ some c
  ended_session r identity between later fresh h k j found =
      let r_open = put_session r identity c in
      let r_end = all_happen r_open between in
      let r_gone = remove_session r_end identity c in
      ground (
        arith,
        get_session-times (all_happen r_gone later) j found,
        times-all_happen later r_gone j k,
        times-removed r_end identity j,
        times-all_happen between r_open j h,
        times-put r identity j,
        count_zero (sessions r j) (fresh j),
      )
