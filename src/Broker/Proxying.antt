-- ===== src/Broker/Proxying.antt =====
-- Who gets to use a credential.
use among_clusters.Prelude.{
  ◌≡◌, refl, ap, ◌∙◌, ◌⊎◌, inl, inr, Bool, true, false, none, some, List, [], ◌∷◌, ◌++◌, arith,
  if◌then◌else◌, Bool-cases, ◌||◌, subst, sym,
}
use among_clusters.Text.{Text, codes, ◌==◌, is_empty, trim_prefix, has_prefix, split, split_n}
use among_clusters.Text.Equality.{eq_iff}
use among_clusters.Time.{Time, before_iff}
use among_clusters.Dict.{get}
use among_clusters.Http.{Action, next, http_error, pure, ◌>>=◌}
use among_clusters.Http.Rules.{present_next, require_next}
use among_clusters.Broker.{Broker, World, Secret, get_secret, secret_name, reference}
use among_clusters.Broker.Proxy.{
  Forwarded, proxy, proxy_parts, proxy_grant, may_use, kubernetes_proxy_parts, forwarded_path,
  origin_parts, add_path, bearer_prefix,
}
use among_clusters.Broker.Permission.{
  IsAllowed, IsReference, IsExplicit, MayUse, IsForwarded, reviewed_user,
}
use among_clusters.Broker.Stored.{decrypted_next}

module _ (w : World) (opaque : Bool) (provided tenant grant : Text) where
  may_use_facts :
      may_use w opaque provided tenant grant ≡ true
      → IsReference provided tenant grant
        ⊎ ((opaque ≡ false) × IsAllowed w (trim_prefix provided (codes "Bearer ")) tenant grant)
  unfolding may_use reference
  may_use_facts h = elim (Bool-cases (provided == codes "Bearer " ++ reference tenant grant)) [
    | inl e ↦ inl ((eq_iff provided (codes "Bearer " ++ reference tenant grant)).0 e)
    | inr e ↦
        let token = trim_prefix provided (codes "Bearer ") in
        inr (
          ground (arith, h, e),
          reviewed_user w token tenant grant (w.token_review token) refl (ground (arith, h, e)),
        )
  ]

  module _ (path : List Text) (now : Time) (s t : Broker) (f : Forwarded) where
    read_secret :
        {B : Type 0} {b : B} {P : Type 0} (g : Secret → Action Broker B)
        → (get_secret w (secret_name tenant grant) >>= g) s ≡ (next b, t)
        → ((secret : Secret)
            → get s.secrets (secret_name tenant grant) ≡ some secret
            → g secret s ≡ (next b, t)
            → P)
        → P
    unfolding get_secret ◌>>=◌
    read_secret g h k =
        present_next
          (if w.reads (secret_name tenant grant)
            then get s.secrets (secret_name tenant grant)
            else none)
          (http_error 403 (codes "credential unavailable")) g s h
          λ secret e i. k secret (ground (arith, e)) i

    finished : (q : Forwarded) → pure q s ≡ (next f, t) → (f ≡ q) × (t ≡ s)
    unfolding pure
    finished q h = (cc, cc)

    proxy_grant-IsForwarded :
        proxy_grant w opaque provided tenant grant path now s ≡ (next f, t)
        → (may_use w opaque provided tenant grant ≡ true)
          × (f.path ≡ forwarded_path path)
          × IsForwarded w tenant grant now s t f
    unfolding proxy_grant
    proxy_grant-IsForwarded h = require_next _ _ _ s h λ may h. read_secret _ h λ secret stored h.
        present_next _ _ _ s h λ envelope parsed h. decrypted_next s t f _ _ _ h λ payload sealed h.
          require_next _ _ _ s h λ live h. require_next _ _ _ s h λ url h.
            let ends = finished _ h in
            (
              may,
              ap (λ q. q.path) ends.0,
              record {
                secret = secret;
                envelope = envelope;
                payload = payload;
                stored = stored;
                parsed = parsed;
                sealed = sealed;
                live = (before_iff now payload.expires_at).0 live;
                to_target = ap (λ q. q.target) ends.0;
                under_authority = ap (λ q. q.certificate_authority) ends.0;
                to_name = ap (λ q. q.tls_server_name) ends.0;
                with_token = ap (λ q. q.authorization) ends.0;
                unchanged = ends.1;
              },
            )

add_path-forwarded_path :
    (a b path tenant grant : Text) (rest : List Text)
    → add_path a b path ≡ tenant ∷ grant ∷ rest
    → forwarded_path rest ≡ codes "/" ++ path
unfolding add_path forwarded_path is_empty
add_path-forwarded_path a b [] tenant grant [] h = refl
add_path-forwarded_path a b [] tenant grant (p ∷ rest) h = cc
add_path-forwarded_path a b (c ∷ path) tenant grant [] h = cc
add_path-forwarded_path a b (c ∷ path) tenant grant (p ∷ rest) h =
    let same : c ∷ path ≡ p = cc in ap (λ q. codes "/" ++ q) (sym same)

-- The two ways to name a grant.
origin_path :
    (l : List Text) (path tenant grant : Text) (rest : List Text)
    → origin_parts l path ≡ tenant ∷ grant ∷ rest
    → forwarded_path rest ≡ codes "/" ++ trim_prefix path (codes "/")
unfolding origin_parts
origin_path [] path tenant grant rest h = cc
origin_path (a ∷ []) path tenant grant rest h = cc
origin_path (a ∷ b ∷ []) path tenant grant rest h = elim (Bool-cases (is_empty a || is_empty b)) [
  | inl e ↦ absurd (ground (arith, h, e))
  | inr e ↦
      add_path-forwarded_path a b (trim_prefix path (codes "/")) tenant grant rest
        (ground (arith, h, e))
]
origin_path (a ∷ b ∷ c ∷ l) path tenant grant rest h = cc

origin_facts :
    (path provided tenant grant : Text) (rest : List Text)
    → has_prefix path (codes "/k8s/") ≡ false
    → (kubernetes_proxy_parts path provided).0 ≡ tenant ∷ grant ∷ rest
    → ((kubernetes_proxy_parts path provided).1 ≡ true)
      × (forwarded_path rest ≡ codes "/" ++ trim_prefix path (codes "/"))
unfolding kubernetes_proxy_parts
origin_facts path provided tenant grant rest e h =
    elim (Bool-cases (has_prefix provided bearer_prefix)) [
      | inl g ↦ (
        ground (arith, e, g),
        origin_path (split (trim_prefix provided bearer_prefix) b'/') path tenant grant rest
            (ground (arith, h, e, g)),
      )
      | inr g ↦ absurd (ground (arith, h, e, g))
    ]

explicit_facts :
    (path provided : Text)
    → has_prefix path (codes "/k8s/") ≡ true
    → kubernetes_proxy_parts path provided
      ≡ (split_n (trim_prefix path (codes "/k8s/")) b'/' 2, false)
unfolding kubernetes_proxy_parts
explicit_facts path provided e = rw e refl

explicit_path :
    (path tenant grant : Text) (rest : List Text)
    → has_prefix path (codes "/k8s/") ≡ true
    → split_n (trim_prefix path (codes "/k8s/")) b'/' 2 ≡ tenant ∷ grant ∷ rest
    → IsExplicit path tenant grant (forwarded_path rest)
unfolding forwarded_path
explicit_path path tenant grant [] h k = record {
  prefixed = h;
  rest = [];
  parts = k;
  passed = inl (refl, refl);
}
explicit_path path tenant grant (p ∷ more) h k = record {
  prefixed = h;
  rest = p ∷ more;
  parts = k;
  passed = inr (p, more, refl, refl);
}

proxy_parts-IsForwarded :
    (w : World) (opaque : Bool) (provided : Text) (parts : List Text) (now : Time) (s t : Broker)
    (f : Forwarded)
    → proxy_parts w opaque provided parts now s ≡ (next f, t)
    → (tenant grant : Text) × (rest : List Text) × (parts ≡ tenant ∷ grant ∷ rest)
      × (may_use w opaque provided tenant grant ≡ true)
      × (f.path ≡ forwarded_path rest)
      × IsForwarded w tenant grant now s t f
unfolding proxy_parts
proxy_parts-IsForwarded w opaque provided [] now s t f h = cc
proxy_parts-IsForwarded w opaque provided (tenant ∷ []) now s t f h = cc
proxy_parts-IsForwarded w opaque provided (tenant ∷ grant ∷ path) now s t f h =
    let (may, onward, passed) =
      proxy_grant-IsForwarded w opaque provided tenant grant path now s t f h in
    (tenant, grant, path, refl, may, onward, passed)

permitted :
    (w : World) (path provided tenant grant : Text) (rest : List Text)
    → (kubernetes_proxy_parts path provided).0 ≡ tenant ∷ grant ∷ rest
    → (IsReference provided tenant grant
        ⊎ (((kubernetes_proxy_parts path provided).1 ≡ false)
            × IsAllowed w (trim_prefix provided (codes "Bearer ")) tenant grant))
    → MayUse w path provided tenant grant (forwarded_path rest)
permitted w path provided tenant grant rest parts by =
    elim (Bool-cases (has_prefix path (codes "/k8s/"))) [
      | inl e ↦
          let explicit =
            explicit_path path tenant grant rest e
              (sym (ap (λ q. q.0) (explicit_facts path provided e)) ∙ parts) in
          inl (explicit, elim by [ inl reference ↦ inl reference | inr (_, user) ↦ inr user ])
      | inr e ↦
          let (opaque, onward) = origin_facts path provided tenant grant rest e parts in
          elim by [
            | inl reference ↦ inr (record { unprefixed = e; passed = onward }, reference)
            | inr (explicit, user) ↦ cc (opaque, explicit)
          ]
    ]

module _ (w : World) (path provided : Text) (now : Time) (s t : Broker) (f : Forwarded) where
  -- If the broker passes a request on, then it is for a tenant and a grant that the caller may use:
  -- either the path names them after /k8s/, and the header is exactly the reference to the grant or
  -- holds the token of an authenticated user whom the local cluster allows to use this very grant, or
  -- the path does not begin so, and the header is exactly the reference. The Secret of this grant
  -- holds an envelope that opens to a credential not past its expiry; the request goes to the
  -- credential's server, under its authority and name, with its token and the rest of the path; and
  -- the broker is unchanged.
  pub proxy-IsForwarded :
      proxy w path provided now s ≡ (next f, t)
      → (tenant grant : Text) × MayUse w path provided tenant grant f.path
        × IsForwarded w tenant grant now s t f
  unfolding proxy
  proxy-IsForwarded h =
      let named = kubernetes_proxy_parts path provided in
      let (tenant, grant, rest, parts, may, onward, passed) =
        proxy_parts-IsForwarded w named.1 provided named.0 now s t f h in
      let permission = may_use_facts w named.1 provided tenant grant may in
      (
        tenant,
        grant,
        subst (MayUse w path provided tenant grant) (sym onward)
            (permitted w path provided tenant grant rest parts permission),
        passed,
      )
