-- ===== src/Broker/Generations.antt =====
-- The generations that the broker keeps only grow, so that it does not accept a credential message
-- again.
use among_clusters.Prelude.{
  ℕ, ◌≤◌, ◌<◌, ◌≡◌, ◌≢◌, refl, sym, ap, subst, Bool, Option, some, List, [], ◌∷◌, arith,
  if◌then◌else◌, Bool-cases, inl, inr,
}
use among_clusters.Text.{Text, ◌==◌}
use among_clusters.Text.Equality.{eq_iff}
use among_clusters.Time.{Time}
use among_clusters.Dict.{put, get-put}
use among_clusters.Model.{ControlMessage}
use among_clusters.Http.{Response, Outcome, done, next, pure}
use among_clusters.Http.Clean.{
  IsReading, Preserves, present-IsReading, require-IsReading, reading-Preserves, bind-Preserves,
}
use among_clusters.Broker.{Broker, World, store, revoke, last_generation, delete_secret, get_secret}
use among_clusters.Broker.Proxy.{proxy, proxy_parts, proxy_grant, kubernetes_proxy_parts}
use among_clusters.Broker.Stored.{IsStored, store-IsStored, store-IsClean, decrypted-IsReading}

-- A request to the broker, with the world as it is then and the readings of the clock.
pub data Request : Type 0 where
  storing : World → Option ControlMessage → Time → Time → Request
  revoking : World → Option ControlMessage → Time → Request
  proxying : World → Text → Text → Time → Request

unfoldable pub serve : Broker → List Request → Broker
serve s [] = s
serve s (storing w body now later ∷ l) = serve (store w body now later s).1 l
serve s (revoking w body now ∷ l) = serve (revoke w body now s).1 l
serve s (proxying w path provided now ∷ l) = serve (proxy w path provided now s).1 l

pure-IsReading : {A : Type 0} (a : A) → IsReading {S = Broker} (pure a)
unfolding pure
pure-IsReading a s = refl

delete_secret-Preserves :
    (w : World) (name : Text) → Preserves (λ s. s.generations) (delete_secret w name)
unfolding delete_secret
delete_secret-Preserves w name s = ground arith

get_secret-IsReading : (w : World) (name : Text) → IsReading (get_secret w name)
unfolding get_secret
get_secret-IsReading w name s = present-IsReading _ _ s

ruleset preserving = (
  present-IsReading, require-IsReading, pure-IsReading, decrypted-IsReading, get_secret-IsReading,
  reading-Preserves, bind-Preserves, delete_secret-Preserves,
)

revoke-Preserves :
    (w : World) (body : Option ControlMessage) (now : Time)
    → Preserves (λ s. s.generations) (revoke w body now)
unfolding revoke
revoke-Preserves w body now = search preserving depth 40

proxy_grant-Preserves :
    (w : World) (opaque : Bool) (provided tenant grant : Text) (path : List Text) (now : Time)
    → Preserves (λ s. s) (proxy_grant w opaque provided tenant grant path now)
unfolding proxy_grant
proxy_grant-Preserves w opaque provided tenant grant path now = search preserving depth 40

proxy_parts-Preserves :
    (w : World) (opaque : Bool) (provided : Text) (parts : List Text) (now : Time)
    → Preserves (λ s. s) (proxy_parts w opaque provided parts now)
unfolding proxy_parts
proxy_parts-Preserves w opaque provided [] now s = refl
proxy_parts-Preserves w opaque provided (tenant ∷ []) now s = refl
proxy_parts-Preserves w opaque provided (tenant ∷ grant ∷ path) now s =
    proxy_grant-Preserves w opaque provided tenant grant path now s

proxy-Preserves :
    (w : World) (path provided : Text) (now : Time) → Preserves (λ s. s) (proxy w path provided now)
unfolding proxy
proxy-Preserves w path provided now s =
    let parts = kubernetes_proxy_parts path provided in
    proxy_parts-Preserves w parts.1 provided parts.0 now s

last_generation_of :
    (s t : Broker) (id : Text)
    → s.generations ≡ t.generations
    → last_generation s id ≡ last_generation t id
unfolding last_generation
last_generation_of s t id h = rw h refl

last_generation-put :
    (s t : Broker) (k id : Text) (g : ℕ)
    → t.generations ≡ put s.generations k g
    → last_generation t id ≡ (if k == id then g else last_generation s id)
unfolding last_generation
last_generation-put s t k id g h =
    let law = get-put s.generations k id g in rw h (ground (arith, law))

module _ (w : World) (m : ControlMessage) (now later : Time) (s t : Broker) (r : Response)
    (stored : IsStored w m now later s t r) where
  -- The issuer's generation is then that of the message, and was lower before.
  stored_newer :
      (m.issuer ≡ stored.sender.spiffe_id)
      × (last_generation s stored.sender.spiffe_id < m.generation)
  stored_newer = (stored.authorized.from_sender, stored.authorized.current.newer)

  stored_generation :
      (id : Text)
      → last_generation t id
        ≡ (if stored.sender.spiffe_id == id then m.generation else last_generation s id)
  stored_generation id =
      last_generation-put s t stored.sender.spiffe_id id m.generation
        (ap (λ u. u.generations) stored.result)

module _ (id : Text) where
  store_grows_to :
      (w : World) (body : Option ControlMessage) (now later : Time) (s : Broker)
      (o : Outcome Response × Broker)
      → store w body now later s ≡ o
      → last_generation s id ≤ last_generation o.1 id
  store_grows_to w body now later s (done r, t) e =
      rw (store-IsClean w body now later s t r e) (omega arith)
  store_grows_to w body now later s (next r, t) e =
      let (m, sent, stored) = store-IsStored w body now later s t r e in
      let sender = stored.sender.spiffe_id in
      let after = stored_generation w m now later s t r stored id in
      let below = stored_newer w m now later s t r stored in
      elim (Bool-cases (sender == id)) [
        | inl d ↦
            let same : sender ≡ id = (eq_iff sender id).0 d in
            let before = ap (last_generation s) same in ground (arith, after, d, below.1, before)
        | inr d ↦ ground (arith, after, d)
      ]

  serve_grows :
      (l : List Request) (s : Broker) → last_generation s id ≤ last_generation (serve s l) id
  unfolding serve
  serve_grows [] s = omega arith
  serve_grows (storing w body now later ∷ l) s = omega (
    arith,
    store_grows_to w body now later s (store w body now later s) refl,
    serve_grows l (store w body now later s).1,
  )
  serve_grows (revoking w body now ∷ l) s =
      let same : last_generation (revoke w body now s).1 id ≡ last_generation s id =
        last_generation_of (revoke w body now s).1 s id (revoke-Preserves w body now s) in
      omega (arith, same, serve_grows l (revoke w body now s).1)
  serve_grows (proxying w path provided now ∷ l) s =
      let same : last_generation (proxy w path provided now s).1 id ≡ last_generation s id =
        ap (λ z. last_generation z id) (proxy-Preserves w path provided now s) in
      omega (arith, same, serve_grows l (proxy w path provided now s).1)

accepted_at :
    (w : World) (m : ControlMessage) (now later : Time) (s t : Broker) (r : Response)
    → store w (some m) now later s ≡ (next r, t)
    → (last_generation s m.issuer < m.generation) × (last_generation t m.issuer ≡ m.generation)
accepted_at w m now later s t r h =
    let (m_sent, sent, found) = store-IsStored w (some m) now later s t r h in
    let same : m_sent ≡ m = cc sent in
    let stored = subst (λ x. IsStored w x now later s t r) same found in
    let below = stored_newer w m now later s t r stored in
    let sender = stored.sender.spiffe_id in
    let after = stored_generation w m now later s t r stored m.issuer in
    let here = (eq_iff sender m.issuer).1 (sym below.0) in
    let before = ap (last_generation s) below.0 in ground (arith, after, here, below.1, before)

-- After the broker has accepted a credential message, and then served any requests, it accepts no
-- credential message of the same issuer with the same or a lower generation, at whatever time.
pub store_replay :
    (w w_then : World) (m m_then : ControlMessage) (now later now_then later_then : Time)
    (s t u : Broker) (r r_then : Response) (l : List Request)
    → store w (some m) now later s ≡ (next r, t)
    → m_then.issuer ≡ m.issuer
    → m_then.generation ≤ m.generation
    → store w_then (some m_then) now_then later_then (serve t l) ≢ (next r_then, u)
store_replay w w_then m m_then now later now_then later_then s t u r r_then l h issuer old again =
    let first = accepted_at w m now later s t r h in
    let second = accepted_at w_then m_then now_then later_then (serve t l) u r_then again in
    let moved = ap (last_generation (serve t l)) issuer in
    omega (arith, first.1, second.0, old, moved, serve_grows m.issuer l t)
