-- ===== src/Kubernetes/Grants/Fulfilled.antt =====
-- What a publisher is asked to do, it can report as done.
use among_clusters.Prelude.{
  ◌≡◌, refl, sym, ap, subst, ◌∙◌, inl, inr, true, Option, none, some, List, [], ◌∷◌, In, arith,
  Bool-cases,
}
use among_clusters.Text.{Text, codes, ◌==◌, has_prefix}
use among_clusters.Text.Equality.{eq_iff}
use among_clusters.Time.{Time}
use among_clusters.Model.{GrantInstruction, GrantFulfillment}
use among_clusters.Result.{ok}
use among_clusters.Reconciler.{Rfc3339}
use among_clusters.Kubernetes.Namespace
use among_clusters.Kubernetes.Namespace.{
  ServiceAdvertisement, AccessGrant, Answers, find_grant, put_grant, read,
}
use among_clusters.Kubernetes.Grants.{
  instruction_of, advertisement_at, is_own_api, pending_grant, collect_grants, pending_grants,
  renewed, fulfill_found, fulfill_grant,
}

-- The API server names the grants of a namespace uniquely.
unfoldable pub IsNamed : List AccessGrant → Type 0
IsNamed grants = (g : AccessGrant) → In g grants → find_grant grants g.name ≡ some g

find_grant_name :
    (gs : List AccessGrant) (name : Text) (g : AccessGrant)
    → find_grant gs name ≡ some g
    → g.name ≡ name
unfolding find_grant
find_grant_name [] name g h = absurd cc
find_grant_name (x ∷ xs) name g h = elim (Bool-cases (x.name == name)) [
  | inl same ↦
      let here : x ≡ g = (let e : some x ≡ some g = ground (arith, h, same) in cc) in
      sym (ap (λ (o : AccessGrant). o.name) here) ∙ (eq_iff x.name name).0 same
  | inr other ↦ find_grant_name xs name g (ground (arith, h, other))
]

find-put_grant :
    (gs : List AccessGrant) (g new : AccessGrant) (name : Text)
    → new.name ≡ name
    → find_grant gs name ≡ some g
    → find_grant (put_grant gs new) name ≡ some new
unfolding find_grant put_grant
find-put_grant [] g new name e h = absurd cc
find-put_grant (x ∷ xs) g new name e h = elim (Bool-cases (x.name == name)) [
  | inl same ↦
      ground (arith, e, same, eq_iff x.name new.name, eq_iff x.name name, eq_iff new.name name)
  | inr other ↦
      let ih = find-put_grant xs g new name e (ground (arith, h, other)) in
      ground (arith, e, other, ih, eq_iff x.name new.name, eq_iff x.name name)
]

module _ (answers : Answers) (layout : Rfc3339) (tenant issuer : Text)
    (space : Namespace.Namespace) where
  -- What an instruction shows of its grant.
  record IsPending (o : AccessGrant) (i : GrantInstruction) : Type 0 where
    expires : Time
    approved : o.approved ≡ true
    advertisement : ServiceAdvertisement
    found : advertisement_at answers o.advertisement_ref space ≡ some advertisement
    own : advertisement.publisher_ref ≡ issuer
    instruction : i ≡ instruction_of tenant expires o

  pending_grant-IsPending :
      (o : AccessGrant) (i : GrantInstruction) (t : Option Time) (a : Option ServiceAdvertisement)
      → layout.parse o.expires_at ≡ t
      → advertisement_at answers o.advertisement_ref space ≡ a
      → pending_grant answers layout tenant issuer space o ≡ some i
      → IsPending o i
  unfolding pending_grant is_own_api
  pending_grant-IsPending o i (some t) (some a) e f h = record {
    expires = t;
    approved = ground (arith, h);
    advertisement = a;
    found = f;
    own = ground (arith, e, f, h, eq_iff a.publisher_ref issuer);
    instruction = ground (arith, e, f, h);
  }
  pending_grant-IsPending o i none a e f h = absurd (ground (arith, e, h))
  pending_grant-IsPending o i (some t) none e f h = absurd (ground (arith, e, f, h))

  -- The grant that an instruction was made of.
  abbrev Origin : List AccessGrant → GrantInstruction → Type 0
  Origin os i =
      (o : AccessGrant) × In o os × (pending_grant answers layout tenant issuer space o ≡ some i)

  Origin-later :
      (o : AccessGrant) (os : List AccessGrant) (i : GrantInstruction)
      → Origin os i
      → Origin (o ∷ os) i
  Origin-later o os i (p, listed, same) = (p, inr listed, same)

  collected_from :
      (o : AccessGrant) (os : List AccessGrant) (i : GrantInstruction) (r : Option GrantInstruction)
      → pending_grant answers layout tenant issuer space o ≡ r
      → (In i (collect_grants answers layout tenant issuer space os) → Origin os i)
      → In i (collect_grants answers layout tenant issuer space (o ∷ os))
      → Origin (o ∷ os) i
  unfolding collect_grants
  collected_from o os i none e ih m =
      Origin-later o os i (ih (subst (In i) (rw (e, collect_grants) refl) m))
  collected_from o os i (some j) e ih m = elim (subst (In i) (listed_first j e) m) [
    | inl same ↦ (o, inl refl, e ∙ ap some (sym same))
    | inr rest ↦ Origin-later o os i (ih rest)
  ]
    where
      listed_first :
          (j : GrantInstruction)
          → pending_grant answers layout tenant issuer space o ≡ some j
          → collect_grants answers layout tenant issuer space (o ∷ os)
            ≡ j ∷ collect_grants answers layout tenant issuer space os
      listed_first j e = rw (e, collect_grants) refl

  collected_facts :
      (os : List AccessGrant) (i : GrantInstruction)
      → In i (collect_grants answers layout tenant issuer space os)
      → Origin os i
  unfolding collect_grants
  collected_facts [] i m = absurd m
  collected_facts (o ∷ os) i m =
      collected_from o os i (pending_grant answers layout tenant issuer space o) refl
        (collected_facts os i) m

  listed_facts :
      (is : List GrantInstruction)
      → pending_grants answers layout tenant issuer space ≡ ok is
      → is ≡ collect_grants answers layout tenant issuer space space.grants
  unfolding pending_grants
  listed_facts is h = ground (arith, h)

  fulfilled_found :
      (v : GrantFulfillment) (o : AccessGrant) (a : ServiceAdvertisement)
      → a.publisher_ref ≡ issuer
      → has_prefix v.credential_ref (codes "credential://among-clusters/") ≡ true
      → answers.writes Namespace.grant o.name ≡ true
      → fulfill_found answers layout tenant issuer v o a space ≡ (
        ok tt,
        record space { grants = put_grant space.grants (renewed answers layout tenant issuer v o) },
      )
  unfolding fulfill_found
  fulfilled_found v o a e p w = ground (arith, e, p, w, eq_iff a.publisher_ref issuer)

  -- An instruction that a publisher is given can be fulfilled: where the names of the grants are unique and
  -- the API server answers for the grant, the publisher's report with a credential reference of the
  -- broker is accepted, the grant is then active and carries the reference.
  pub fulfill_grant-pending_grants :
      (is : List GrantInstruction) (i : GrantInstruction) (v : GrantFulfillment)
      → IsNamed space.grants
      → pending_grants answers layout tenant issuer space ≡ ok is
      → In i is
      → v.grant_ref ≡ i.name
      → has_prefix v.credential_ref (codes "credential://among-clusters/") ≡ true
      → answers.reads Namespace.grant i.name ≡ true
      → answers.writes Namespace.grant i.name ≡ true
      → (t : Namespace.Namespace) × (g : AccessGrant) × (fulfill_grant answers layout tenant issuer
            v space
          ≡ (ok tt, t))
        × (find_grant t.grants i.name ≡ some g)
        × (g.credential_ref ≡ v.credential_ref)
        × (g.state ≡ codes "Active")
  unfolding fulfill_grant renewed read IsNamed instruction_of
  fulfill_grant-pending_grants is i v unique given m name prefix readable writable =
      let (o, listed, pending) =
        collected_facts space.grants i (subst (In i) (listed_facts is given) m) in
      let facts =
        pending_grant-IsPending o i (layout.parse o.expires_at)
          (advertisement_at answers o.advertisement_ref space) refl refl pending in
      let same : i.name ≡ o.name = ap (λ (j : GrantInstruction). j.name) facts.instruction in
      let here : find_grant space.grants v.grant_ref ≡ some o =
        subst (λ n. find_grant space.grants n ≡ some o) (sym (name ∙ same)) (unique o listed) in
      let ended =
        fulfilled_found v o facts.advertisement facts.own prefix
          (subst (λ n. answers.writes Namespace.grant n ≡ true) same writable) in
      let reads : answers.reads Namespace.grant v.grant_ref ≡ true = (rw name readable) in
      let kept =
        find-put_grant space.grants o (renewed answers layout tenant issuer v o) i.name (sym same)
          (subst (λ n. find_grant space.grants n ≡ some o) (sym same) (unique o listed)) in
      (
        record space { grants = put_grant space.grants (renewed answers layout tenant issuer v o) },
        renewed answers layout tenant issuer v o,
        ground (arith, here, reads, facts.found, ended),
        kept,
        refl,
        refl,
      )
