-- ===== src/Agent/Access/Approval.antt =====
-- What the agent does for a grant that is neither revoked nor expired.
use among_clusters.Prelude.{
  ◌≡◌, refl, sym, subst, inl, inr, true, false, Option, none, some, ◌++◌, arith, Option-cases,
  Bool-cases,
}
use among_clusters.Prelude.Int.{ℤ, pos, ◌≤ℤ◌, ◌<ℤ◌, ltb_ℤ, ltb_ℤ_iff}
use among_clusters.Text.{Text, codes}
use among_clusters.Text.Equality.{eq_iff}
use among_clusters.Time.{Time, before, before_iff}
use among_clusters.Dict
use among_clusters.Model.{GrantInstruction, CredentialPayload}
use among_clusters.Result.{Result, Error, ok, err, remote}
use among_clusters.Agent.{format_int}
use among_clusters.Agent.Access
use among_clusters.Agent.Access.{
  ApprovalMap, Cluster, Token, Outside, grant_resource_name, token_seconds, is_approval, create_key,
  give_access, give_credential, after_access, fulfil, approval_of, reconcile_grant, whole_seconds,
}

-- The customer has approved this grant in this generation.
pub record IsApproved (grant : GrantInstruction) (s : Cluster) : Type 0 where
  pub approval : ApprovalMap
  pub found : Dict.get s.approvals (codes "among-clusters-approval-" ++ grant.name) ≡ some approval
  pub this_grant : approval.grant_ref ≡ grant.name
  pub this_generation : approval.generation ≡ format_int grant.generation
  pub given : approval.approved ≡ codes "true"

-- A token of the grant's account, of ten minutes to an hour, was issued and uploaded.
pub record IsCredentialed (w : Outside) (grant : GrantInstruction) : Type 0 where
  pub lifetime : ℤ
  pub at_least : pos 600 ≤ℤ lifetime
  pub at_most : lifetime ≤ℤ pos 3600
  pub token : Token
  pub issued : w.create_token (grant_resource_name grant.name) lifetime ≡ ok token
  pub payload : CredentialPayload
  pub same_token : payload.token ≡ token.token
  pub uploaded : w.upload grant payload ≡ ok tt

token_seconds_bound : (expires now : Time) → token_seconds expires now ≤ℤ pos 3600
unfolding token_seconds ltb_ℤ
token_seconds_bound expires now = ground arith

module _ (w : Outside) (grant : GrantInstruction) where
  credential_facts :
      (now : Time) (s : Cluster) (r : Result Token) (ca : Option Text)
      → w.create_token (grant_resource_name grant.name) (token_seconds grant.expires_at now) ≡ r
      → s.root_ca ≡ ca
      → give_credential w grant now s ≡ ok tt
      → IsCredentialed w grant
  unfolding give_credential
  credential_facts now s (err x) ca e f h = absurd (ground (arith, e, h))
  credential_facts now s (ok token) none e f h = absurd (ground (arith, e, f, h))
  credential_facts now s (ok token) (some ca) e f h =
      let n = token_seconds grant.expires_at now in
      let enough : ltb_ℤ n (pos 600) ≡ false = ground (arith, h) in
      record {
        lifetime = n;
        at_least = ground (arith, enough, ltb_ℤ_iff n (pos 600));
        at_most = token_seconds_bound grant.expires_at now;
        token = token;
        issued = e;
        payload = record {
          token = token.token;
          certificate_authority = ca;
          server = grant.proxy_url;
          tls_server_name = w.tls_server_name;
          expires_at = token.expires_at;
        };
        same_token = refl;
        uploaded = ground (arith, e, f, h, enough);
      }

  after_access_facts :
      (now : Time) (o : Result (Unit {0}) × Cluster)
      → (after_access w grant now o).0 ≡ ok tt
      → IsCredentialed w grant
  unfolding after_access
  after_access_facts now (ok u, s) h =
      credential_facts now s
        (w.create_token (grant_resource_name grant.name) (token_seconds grant.expires_at now))
        s.root_ca refl refl h
  after_access_facts now (err e, s) h = absurd (ground (arith, h))

  fulfil_facts :
      (now : Time) (s : Cluster) (o : Option (Dict.Dict (Unit {0})))
      → create_key w Access.account (grant_resource_name grant.name) s.accounts ≡ o
      → (fulfil w grant now s).0 ≡ ok tt
      → IsCredentialed w grant
  unfolding fulfil
  fulfil_facts now s none e h = absurd (ground (arith, e, h))
  fulfil_facts now s (some accounts) e h =
      after_access_facts now (give_access w grant (record s { accounts = accounts }))
        (ground (arith, e, h))

  -- What became of a live grant: nothing was changed for want of an approval; or it is approved and either
  -- something failed or the credential was delivered.
  pub data Course (s : Cluster) : Result (Unit {0}) × Cluster → Type 0 where
    unapproved : (e : Error) → Course s (err e, s)
    broken_off : (e : Error) (t : Cluster) → IsApproved grant s → Course s (err e, t)
    delivered : (t : Cluster) → IsApproved grant s → IsCredentialed w grant → Course s (ok tt, t)

  Course-approved :
      (s : Cluster) (o : Result (Unit {0}) × Cluster)
      → IsApproved grant s
      → (o.0 ≡ ok tt → IsCredentialed w grant)
      → Course s o
  Course-approved s (ok tt, t) approved facts = delivered t approved (facts refl)
  Course-approved s (err e, t) approved facts = broken_off e t approved

  approval_found :
      (s : Cluster) (a : ApprovalMap)
      → approval_of w grant s ≡ some a
      → Dict.get s.approvals (codes "among-clusters-approval-" ++ grant.name) ≡ some a
  unfolding approval_of
  approval_found s a h = ground (arith, h)

  approval_facts :
      (s : Cluster) (a : ApprovalMap)
      → approval_of w grant s ≡ some a
      → is_approval grant a ≡ true
      → IsApproved grant s
  unfolding is_approval
  approval_facts s a e h = record {
    approval = a;
    found = approval_found s a e;
    this_grant = ground (arith, h, eq_iff a.grant_ref grant.name);
    this_generation = ground (arith, h, eq_iff a.generation (format_int grant.generation));
    given = ground (arith, h, eq_iff a.approved (codes "true"));
  }

  module _ (now later : Time) (s : Cluster) (live : grant.revoked ≡ false)
      (time : before now grant.expires_at ≡ true) where
    reconcile_none :
        approval_of w grant s ≡ none
        → reconcile_grant w grant now later s
          ≡ (err (remote (codes "local customer approval required")), s)
    unfolding reconcile_grant
    reconcile_none e = ground (arith, live, time, e)

    reconcile_invalid :
        (a : ApprovalMap)
        → approval_of w grant s ≡ some a
        → is_approval grant a ≡ false
        → reconcile_grant w grant now later s
          ≡ (err (remote (codes "local customer approval invalid")), s)
    unfolding reconcile_grant
    reconcile_invalid a e f = ground (arith, live, time, e, f)

    reconcile_approved :
        (a : ApprovalMap)
        → approval_of w grant s ≡ some a
        → is_approval grant a ≡ true
        → reconcile_grant w grant now later s ≡ fulfil w grant later s
    unfolding reconcile_grant
    reconcile_approved a e f = ground (arith, live, time, e, f)

  -- Of a grant that is neither revoked nor expired, the agent changes nothing in the cluster and reports an
  -- error, or the customer has approved this grant in this generation; then either a step fails, or a
  -- token of ten minutes to an hour was issued for the grant's account and uploaded.
  pub reconcile_grant-Course :
      (now later : Time) (s : Cluster)
      → grant.revoked ≡ false
      → now <ℤ grant.expires_at
      → Course s (reconcile_grant w grant now later s)
  reconcile_grant-Course now later s live unexpired =
      let time = (before_iff now grant.expires_at).1 unexpired in
      elim (Option-cases (approval_of w grant s)) [
        | inl e ↦ subst (Course s) (sym (reconcile_none now later s live time e)) (unapproved _)
        | inr (a, e) ↦ elim (Bool-cases (is_approval grant a)) [
          | inr f ↦
              subst (Course s) (sym (reconcile_invalid now later s live time a e f)) (unapproved _)
          | inl f ↦ subst (Course s) (sym (reconcile_approved now later s live time a e f)) (
              Course-approved s (fulfil w grant later s) (approval_facts s a e f) (
                fulfil_facts later s
                  (create_key w Access.account (grant_resource_name grant.name) s.accounts) refl))
        ]
      ]
