-- ===== src/Reconciler/Peers.antt =====
-- The passes over peers, advertisements, links and grants: when a peer becomes ready, and that a
-- second pass at the same time changes nothing.
use mathlib.Core.Path.{fun_ext}
use among_clusters.Prelude.{
  ◌≡◌, refl, ap, ◌∙◌, ◌↔◌, Bool, true, false, arith, if◌then◌else◌, Bool-cases, inl, inr,
}
use among_clusters.Text.{Text, codes}
use among_clusters.Time.{Time}
use among_clusters.Dict
use among_clusters.Dict.{Dict, map-map}
use among_clusters.Reconciler.{
  Rfc3339, Peer, Advertisement, Link, Grant, update_status, reconcile_peer, reconcile_peers,
  reconcile_advertisement, reconcile_advertisements, reconcile_link, reconcile_links,
  reconcile_grant, reconcile_grants,
}

-- A pass makes a peer ready exactly if it is not suspended and both owners have confirmed the other's
-- bundle.
reconcile_peer_ready :
    (o : Peer)
    → ((reconcile_peer o).state ≡ codes "Ready")
      ↔ ((o.suspended ≡ false) × (o.local_confirmed ≡ true) × (o.remote_confirmed ≡ true))
unfolding reconcile_peer
reconcile_peer_ready o = ((λ h. ground arith), (λ h. ground arith))

module _ {ℓ} {V : Type ℓ} (accepts : Text → Bool) (f : V → V) where
  update_twice :
      ((v : V) → f (f v) ≡ f v)
      → (k : Text) (v : V)
      → update_status accepts f k (update_status accepts f k v) ≡ update_status accepts f k v
  update_twice idem k v = elim (Bool-cases (accepts k)) [
    | inl e ↦ rw e (idem v)
    | inr e ↦ rw e refl
  ]

  pass_twice :
      ((v : V) → f (f v) ≡ f v)
      → (listed : Bool) (d : Dict V)
      → (if listed
          then Dict.map
              (update_status accepts f)
              (if listed then Dict.map (update_status accepts f) d else d)
          else if listed
          then Dict.map (update_status accepts f) d
          else d)
        ≡ (if listed then Dict.map (update_status accepts f) d else d)
  pass_twice idem false d = refl
  pass_twice idem true d =
      map-map (update_status accepts f) (update_status accepts f) d
      ∙ ap (λ g. Dict.map g d) (fun_ext (λ k. fun_ext (λ v. update_twice idem k v)))

peer_twice : (o : Peer) → reconcile_peer (reconcile_peer o) ≡ reconcile_peer o
unfolding reconcile_peer
peer_twice o = refl

module _ (layout : Rfc3339) (now : Time) where
  advertisement_twice :
      (o : Advertisement)
      → reconcile_advertisement layout now (reconcile_advertisement layout now o)
        ≡ reconcile_advertisement layout now o
  unfolding reconcile_advertisement
  advertisement_twice o = refl

  link_twice :
      (o : Link)
      → reconcile_link layout now (reconcile_link layout now o) ≡ reconcile_link layout now o
  unfolding reconcile_link
  link_twice o = ground arith

  grant_twice :
      (enabled : Bool) (o : Grant)
      → reconcile_grant layout enabled now (reconcile_grant layout enabled now o)
        ≡ reconcile_grant layout enabled now o
  unfolding reconcile_grant
  grant_twice enabled o = refl

-- A second pass at the same time over peers, advertisements, links or grants changes nothing, also
-- where the API server refuses some of the updates or a list call fails.
pub reconcile_idem :
    (layout : Rfc3339) (now : Time) (enabled listed : Bool) (accepts : Text → Bool)
    (peers : Dict Peer) (ads : Dict Advertisement) (links : Dict Link) (grants : Dict Grant)
    → (reconcile_peers listed accepts (reconcile_peers listed accepts peers)
        ≡ reconcile_peers listed accepts peers)
      × (reconcile_advertisements layout now listed accepts
            (reconcile_advertisements layout now listed accepts ads)
          ≡ reconcile_advertisements layout now listed accepts ads)
      × (reconcile_links layout now listed accepts (reconcile_links layout now listed accepts links)
          ≡ reconcile_links layout now listed accepts links)
      × (reconcile_grants layout enabled now listed accepts
            (reconcile_grants layout enabled now listed accepts grants)
          ≡ reconcile_grants layout enabled now listed accepts grants)
unfolding reconcile_peers reconcile_advertisements reconcile_links reconcile_grants
reconcile_idem layout now enabled listed accepts peers ads links grants = (
  pass_twice accepts reconcile_peer peer_twice listed peers,
  pass_twice accepts (reconcile_advertisement layout now) (advertisement_twice layout now) listed
      ads,
  pass_twice accepts (reconcile_link layout now) (link_twice layout now) listed links,
  pass_twice accepts (reconcile_grant layout enabled now) (grant_twice layout now enabled) listed
      grants,
)
