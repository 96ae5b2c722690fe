-- ===== src/Reconciler.antt =====
-- internal/api/sovereign_reconciler.go: one pass over the custom resources of the API group. A resource
-- is the record of the fields that the pass reads or writes, as the Nested… accessors read them (a
-- missing boolean is false, a missing text empty); a collection is a map from the key
-- namespace/name. `accepts` says for which keys the API server accepts the status update: the pass
-- ignores a refused update.
pub mod Peers
pub mod Expiry
pub mod Imports
pub mod Once
use among_clusters.Prelude.{
  ℕ, ◌%◌, ◌^◌, Bool, true, false, not, ◌&&◌, ◌||◌, Option, none, some, List, [], ◌∷◌, ◌++◌,
  if◌then◌else◌,
}
use among_clusters.Prelude.Int.{ℤ, pos, wrap64}
use among_clusters.Text.{Text, codes, ◌==◌, is_empty}
use among_clusters.Time.{Time, zero_time, before, add, sub, seconds, duration_le}
use among_clusters.Dict
use among_clusters.Dict.{Dict}

-- time.Parse and Format with the layout RFC3339.
pub record Rfc3339 : Type 0 where
  pub parse : Text → Option Time
  pub format : Time → Text

pub record Peer : Type 0 where
  pub generation : ℤ
  pub suspended : Bool
  pub local_identity : Text
  pub remote_identity : Text
  pub local_confirmed : Bool
  pub remote_confirmed : Bool
  pub state : Text
  pub observed_generation : ℤ

pub record Advertisement : Type 0 where
  pub created_at : Time
  pub last_published : Text
  pub revoked : Bool
  pub ttl_seconds : ℤ
  pub state : Text
  pub expires_at : Text

pub record Link : Type 0 where
  pub generation : ℤ
  pub local_gateway : Text
  pub remote_gateway : Text
  pub last_observed : Option Text
  pub state : Text
  pub reason : Text
  pub observed_generation : ℤ

pub record Grant : Type 0 where
  pub expires_at : Text
  pub approved : Bool
  pub revoked : Bool
  pub credential_ref : Text
  pub state : Text
  pub reason : Text

-- The body of a loop, with the update of the status.
abbrev pub update_status {ℓ} : {V : Type ℓ} → (Text → Bool) → (V → V) → Text → V → V
update_status accepts f k v = if accepts k then f v else v

unfoldable pub reconcile_peer : Peer → Peer
reconcile_peer o = record o {
  state =
      if o.suspended
      then codes "Suspended"
      else if o.local_confirmed && o.remote_confirmed
      then codes "Ready"
      else codes "PendingConfirmation";
  observed_generation = o.generation;
}

-- reconcilePeers; `listed` is false where the list call fails.
unfoldable pub reconcile_peers : Bool → (Text → Bool) → Dict Peer → Dict Peer
unfolding reconcile_peer
reconcile_peers listed accepts d =
    if listed then Dict.map (update_status accepts reconcile_peer) d else d

-- The time of the annotation last-published-at, or else of the creation.
unfoldable pub published_at : Rfc3339 → Advertisement → Time
published_at layout o =
    if is_empty o.last_published
    then o.created_at
    else elim (layout.parse o.last_published) [ none ↦ o.created_at | some parsed ↦ parsed ]

unfoldable pub expiry : Rfc3339 → Advertisement → Time
unfolding published_at
expiry layout o = add (published_at layout o) (seconds o.ttl_seconds)

unfoldable pub reconcile_advertisement : Rfc3339 → Time → Advertisement → Advertisement
unfolding expiry
reconcile_advertisement layout now o =
    let expires = expiry layout o in
    record o {
      state =
          if o.revoked
          then codes "Revoked"
          else if not (before now expires)
          then codes "Expired"
          else codes "Active";
      expires_at = layout.format expires;
    }

-- reconcileAdvertisements
unfoldable pub reconcile_advertisements :
    Rfc3339 → Time → Bool → (Text → Bool) → Dict Advertisement → Dict Advertisement
unfolding reconcile_advertisement
reconcile_advertisements layout now listed accepts d =
    if listed then Dict.map (update_status accepts (reconcile_advertisement layout now)) d else d

-- Was the link observed in the last 45 seconds?
unfoldable pub observed_lately : Rfc3339 → Time → Text → Bool
observed_lately layout now value = elim (layout.parse value) [
  | none ↦ false
  | some observed ↦ duration_le (sub now observed) (pos 45000000000)
]

link_status : Link → Text → Text → Link
link_status o state reason = record o {
  state = state;
  reason = reason;
  observed_generation = o.generation;
}

unfoldable pub reconcile_link : Rfc3339 → Time → Link → Link
unfolding observed_lately link_status
reconcile_link layout now o =
    if is_empty o.local_gateway && is_empty o.remote_gateway
    then link_status o (codes "Blocked") (codes "NATUnreachable")
    else elim o.last_observed [
      | none ↦ link_status o (codes "Connecting") []
      | some value ↦
          if observed_lately layout now value
          then o
          else link_status o (codes "Disconnected") (codes "ObservationStale")
    ]

-- reconcileLinks
unfoldable pub reconcile_links : Rfc3339 → Time → Bool → (Text → Bool) → Dict Link → Dict Link
unfolding reconcile_link
reconcile_links layout now listed accepts d =
    if listed then Dict.map (update_status accepts (reconcile_link layout now)) d else d

-- expires, _ := time.Parse(...)
unfoldable pub parse_or_zero : Rfc3339 → Text → Time
parse_or_zero layout value = elim (layout.parse value) [ none ↦ zero_time | some t ↦ t ]

unfoldable pub grant_state : Rfc3339 → Bool → Time → Grant → Text
unfolding parse_or_zero
grant_state layout enabled now o =
    if not enabled
    then codes "Pending"
    else if o.revoked
    then codes "Revoked"
    else if not (before now (parse_or_zero layout o.expires_at))
    then codes "Expired"
    else if not o.approved
    then codes "Pending"
    else if is_empty o.credential_ref
    then codes "AwaitingLocalApproval"
    else codes "Active"

unfoldable pub reconcile_grant : Rfc3339 → Bool → Time → Grant → Grant
unfolding grant_state
reconcile_grant layout enabled now o = record o {
  state = grant_state layout enabled now o;
  reason = if enabled then [] else codes "ManagedAccessDisabled";
}

-- reconcileGrants
unfoldable pub reconcile_grants :
    Rfc3339 → Bool → Time → Bool → (Text → Bool) → Dict Grant → Dict Grant
unfolding reconcile_grant
reconcile_grants layout enabled now listed accepts d =
    if listed then Dict.map (update_status accepts (reconcile_grant layout enabled now)) d else d
