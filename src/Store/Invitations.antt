-- ===== src/Store/Invitations.antt =====
-- ConsumeInvitation of the store in memory: exactly which requests redeem an invitation, and what a
-- redemption changes.
use among_clusters.Prelude.{
  ◌≡◌, refl, true, some, List, [], ◌↔◌, ◌⊎◌, inl, inr, arith, All, In, Option-cases, ap, sym,
}
use among_clusters.Prelude.Int.{◌<ℤ◌}
use among_clusters.Text.{Text}
use among_clusters.Text.Equality.{eq_iff, is_empty_iff}
use among_clusters.Time.{Time, zero_time, before, before_iff, is_zero_iff}
use among_clusters.Dict
use among_clusters.Dict.{dict_laws, get-put}
use among_clusters.Model.{Invitation}
use among_clusters.Result.{Result, Error, ok, err}
use among_clusters.Store.{
  MemoryStore, consume_invitation, invitation_check, store_invitation, capabilities_allowed,
}
use among_clusters.Store.Capabilities.{capabilities_allowed_iff}

-- The requests that redeem an invitation.
pub record Redeems (v : Invitation) (hash tenant cluster : Text) (requested : List Text)
    (now : Time) : Type 0 where
  pub knows_token : v.token_hash ≡ hash
  pub same_tenant : v.tenant ≡ tenant
  pub same_cluster : (v.cluster_id ≡ []) ⊎ (v.cluster_id ≡ cluster)
  pub unused : v.used_at ≡ zero_time
  pub in_time : now <ℤ v.expires_at
  pub invited : All (λ c. In c v.capabilities) requested

module _ (v : Invitation) (hash tenant cluster : Text) (requested : List Text) (now : Time) where
  check-of_Redeems :
      Redeems v hash tenant cluster requested now
      → invitation_check v hash tenant cluster requested now ≡ ok (record v { used_at = now })
  unfolding invitation_check
  check-of_Redeems r = ground (
    arith,
    eq_iff v.token_hash hash,
    eq_iff v.tenant tenant,
    eq_iff v.cluster_id cluster,
    is_empty_iff v.cluster_id,
    is_zero_iff v.used_at,
    (before_iff now v.expires_at).1 r.in_time,
    (capabilities_allowed_iff v.capabilities requested).1 r.invited,
  )

  checks_of :
      (u : Invitation)
      → invitation_check v hash tenant cluster requested now ≡ ok u
      → (u ≡ record v { used_at = now })
        × (v.token_hash ≡ hash)
        × (v.tenant ≡ tenant)
        × ((v.cluster_id ≡ []) ⊎ (v.cluster_id ≡ cluster))
        × (v.used_at ≡ zero_time)
        × (before now v.expires_at ≡ true)
        × (capabilities_allowed v.capabilities requested ≡ true)
  unfolding invitation_check
  checks_of u h = ground (
    arith,
    eq_iff v.token_hash hash,
    eq_iff v.tenant tenant,
    eq_iff v.cluster_id cluster,
    is_empty_iff v.cluster_id,
    is_zero_iff v.used_at,
  )

  Redeems-of_check :
      (u : Invitation)
      → invitation_check v hash tenant cluster requested now ≡ ok u
      → Redeems v hash tenant cluster requested now × (u ≡ record v { used_at = now })
  Redeems-of_check u h =
      let (result, token, same, bound, unused, time, caps) = checks_of u h in
      (
        record {
          knows_token = token;
          same_tenant = same;
          same_cluster = bound;
          unused = unused;
          in_time = (before_iff now v.expires_at).0 time;
          invited = (capabilities_allowed_iff v.capabilities requested).0 caps;
        },
        result,
      )

module _ (id hash tenant cluster : Text) (requested : List Text) (now : Time)
    (s : MemoryStore) where
  stored : (r : Result Invitation) (u : Invitation) → (store_invitation id r s).0 ≡ ok u → r ≡ ok u
  unfolding store_invitation
  stored (ok v) u h = h
  stored (err e) u h = cc

  -- A store's answer to a request, by the check on the invitation that it holds under the ID.
  found_cases :
      (u : Invitation)
      → (consume_invitation id hash tenant cluster requested now s).0 ≡ ok u
      → (v : Invitation) × (Dict.get s.invitations id ≡ some v)
        × (invitation_check v hash tenant cluster requested now ≡ ok u)
  unfolding consume_invitation
  found_cases u h = elim (Option-cases (Dict.get s.invitations id)) [
    | inl missing ↦ ground arith
    | inr (v, found) ↦
        (v, found, stored (invitation_check v hash tenant cluster requested now) u (ground arith))
  ]

  consumed :
      (v u : Invitation)
      → Dict.get s.invitations id ≡ some v
      → invitation_check v hash tenant cluster requested now ≡ ok u
      → consume_invitation id hash tenant cluster requested now s
        ≡ (ok u, record s { invitations = Dict.put s.invitations id u })
  unfolding consume_invitation
  consumed v u found checked = ground arith

  -- An invitation is handed out exactly if the store holds one under the ID that the request
  -- redeems: the token hash, the tenant and a bound cluster match, it is unused and has not expired,
  -- and every requested capability was invited. What is returned is that invitation, marked as used.
  pub consume_invitation_iff :
      (u : Invitation)
      → ((consume_invitation id hash tenant cluster requested now s).0 ≡ ok u) ↔ (
          (v : Invitation) × (Dict.get s.invitations id ≡ some v)
          × Redeems v hash tenant cluster requested now
          × (u ≡ record v { used_at = now }))
  consume_invitation_iff u = (
    (λ h.
        let (v, found, checked) = found_cases u h in
        let (redeems, result) = Redeems-of_check v hash tenant cluster requested now u checked in
        (v, found, redeems, result)),
    (λ h.
        let (v, found, redeems, result) = h in
        let checked = check-of_Redeems v hash tenant cluster requested now redeems in
        rw (consumed v _ found checked) (ap ok (sym result))),
  )

  -- A redemption writes the used invitation and nothing else.
  pub consume_invitation_state :
      (u : Invitation)
      → (consume_invitation id hash tenant cluster requested now s).0 ≡ ok u
      → (consume_invitation id hash tenant cluster requested now s).1
        ≡ record s { invitations = Dict.put s.invitations id u }
  consume_invitation_state u h =
      let (v, found, checked) = found_cases u h in rw (consumed v u found checked)

  unstored :
      (r : Result Invitation) (e : Error)
      → (store_invitation id r s).0 ≡ err e
      → (store_invitation id r s).1 ≡ s
  unfolding store_invitation
  unstored (ok v) e h = cc
  unstored (err f) e h = refl

  -- A refused request changes nothing.
  pub consume_invitation_refused :
      (e : Error)
      → (consume_invitation id hash tenant cluster requested now s).0 ≡ err e
      → (consume_invitation id hash tenant cluster requested now s).1 ≡ s
  unfolding consume_invitation
  consume_invitation_refused e h = elim (Option-cases (Dict.get s.invitations id)) [
    | inl missing ↦ rw (missing, consume_invitation) refl
    | inr (v, found) ↦
        rw (found, consume_invitation)
          (unstored (invitation_check v hash tenant cluster requested now) e (ground arith))
  ]
