-- ===== src/Reconciler/Expiry.antt =====
-- When the passes let advertisements, links and grants expire.
use among_clusters.Prelude.{ℕ, ◌≤◌, ◌*◌, ◌≡◌, ◌≢◌, refl, ◌↔◌, Bool, true, false, [], arith}
use among_clusters.Prelude.Int.{pos, ◌<ℤ◌, ◌≤ℤ◌, ◌+ℤ◌}
use among_clusters.Text.{codes}
use among_clusters.Text.Equality.{is_empty_iff}
use among_clusters.Time.{Time, add, before_iff, seconds_in_range, nanoseconds_per_second}
use among_clusters.Reconciler.{
  Rfc3339, Advertisement, Grant, published_at, expiry, reconcile_advertisement, reconcile_grant,
  grant_state, parse_or_zero,
}

module _ (layout : Rfc3339) (o : Advertisement) (ttl : ℕ) where
  expiry_lem :
      o.ttl_seconds ≡ pos ttl
      → ttl ≤ 9223372036
      → expiry layout o ≡ published_at layout o +ℤ pos (ttl * nanoseconds_per_second)
  unfolding expiry add
  expiry_lem e h = rw e (rw (seconds_in_range ttl h) refl)

  -- With a time to live that a duration can hold, a pass makes an advertisement active exactly if it
  -- is not revoked and less than that time has gone by since it was last published, expired exactly
  -- if it is not revoked and that time has gone by, and revoked exactly if it is.
  pub reconcile_advertisement_iff :
      (now : Time)
      → o.ttl_seconds ≡ pos ttl
      → ttl ≤ 9223372036
      → (((reconcile_advertisement layout now o).state ≡ codes "Active") ↔ (
          (o.revoked ≡ false)
          × (now <ℤ published_at layout o +ℤ pos (ttl * nanoseconds_per_second))))
        × (((reconcile_advertisement layout now o).state ≡ codes "Expired") ↔ (
            (o.revoked ≡ false)
            × (published_at layout o +ℤ pos (ttl * nanoseconds_per_second) ≤ℤ now)))
        × (((reconcile_advertisement layout now o).state ≡ codes "Revoked") ↔ (o.revoked ≡ true))
  unfolding reconcile_advertisement
  reconcile_advertisement_iff now e h = rw (expiry_lem e h) (
      let time = before_iff now (published_at layout o +ℤ pos (ttl * nanoseconds_per_second)) in
      (
        ((λ g. ground (arith, time)), (λ g. ground (arith, time))),
        ((λ g. ground (arith, time)), (λ g. ground (arith, time))),
        ((λ g. ground (arith, time)), (λ g. ground (arith, time))),
      ))

module _ (layout : Rfc3339) (enabled : Bool) (now : Time) (o : Grant) where
  -- A pass makes a grant active exactly if managed access is enabled, the grant is approved, not
  -- revoked and not past its expiry, and the publisher has delivered a credential reference.
  reconcile_grant_active : ((reconcile_grant layout enabled now o).state ≡ codes "Active") ↔ (
      (enabled ≡ true)
      × (o.revoked ≡ false)
      × (now <ℤ parse_or_zero layout o.expires_at)
      × (o.approved ≡ true)
      × (o.credential_ref ≢ []))
  unfolding reconcile_grant grant_state
  reconcile_grant_active =
      let time = before_iff now (parse_or_zero layout o.expires_at) in
      let empty = is_empty_iff o.credential_ref in
      ((λ h. ground (arith, time, empty)), (λ h. ground (arith, time, empty)))
