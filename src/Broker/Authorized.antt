-- ===== src/Broker/Authorized.antt =====
-- Who may have sent a message that the broker takes.
use among_clusters.Prelude.{ℕ, ◌≡◌, refl, true, Option, none, some, ◌&&◌, and-eq_true}
use among_clusters.Text.{Text, codes, ◌==◌}
use among_clusters.Text.Equality.{eq_iff}
use among_clusters.Time.{Time}
use among_clusters.Model.{ControlMessage, IdentityRegistration}
use among_clusters.Protocol.{VerifyError, verify}
use among_clusters.Protocol.Verification.{IsCurrent, IsSigned, verify_iff}
use among_clusters.Broker.{World, is_authorized, passes}

passes-none : (o : Option VerifyError) → passes o ≡ true → o ≡ none
unfolding passes
passes-none none h = refl
passes-none (some e) h = cc

module _ (w : World) where
  -- The message comes from the identity, is of the type, is addressed to the broker, newer than the
  -- generation and within its time, and is signed under the key.
  pub record IsAuthorized (m : ControlMessage) (sender : IdentityRegistration) (type key : Text)
      (now : Time) (last : ℕ) : Type 0 where
    pub from_sender : m.issuer ≡ sender.spiffe_id
    pub of_type : m.type ≡ type
    pub current : IsCurrent m (codes "credential-broker") now last none
    pub signed : IsSigned w.crypto m key

  pub is_authorized-IsAuthorized :
      (m : ControlMessage) (v : IdentityRegistration) (type key : Text) (now : Time) (last : ℕ)
      → is_authorized w m v type key now last ≡ true
      → IsAuthorized m v type key now last
  unfolding is_authorized
  is_authorized-IsAuthorized m v type key now last h =
      let outcome = verify w.crypto m key (codes "credential-broker") now last none in
      let issued =
        (and-eq_true (m.issuer == v.spiffe_id) ((m.type == type) && passes outcome)).0 h in
      let typed = (and-eq_true (m.type == type) (passes outcome)).0 issued.1 in
      let checked =
        (verify_iff w.crypto m key (codes "credential-broker") now last none).0
          (passes-none outcome typed.1) in
      record {
        from_sender = (eq_iff m.issuer v.spiffe_id).0 issued.0;
        of_type = (eq_iff m.type type).0 typed.0;
        current = checked.0;
        signed = checked.1;
      }
