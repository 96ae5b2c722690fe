-- ===== src/Server/Routes.antt =====
-- SovereignServer.Handler: the routes of the Hub, and its runs over sequences of requests. A handler
-- runs alone: what two requests do at once is not modelled.
use among_clusters.Prelude.{Option, List, [], ◌∷◌}
use among_clusters.Text.{Text}
use among_clusters.Time.{Time}
use among_clusters.Model.{ControlMessage, InvitationAcceptance}
use among_clusters.Crypto.{Crypto}
use among_clusters.Http.{Response, Body, Outcome, next, respond, write_json}
use among_clusters.Http
use among_clusters.Store.{SovereignStore, MemoryStore, memory_store}
use among_clusters.Store.History.{Extends, Extends-refl, Extends-trans}
use among_clusters.Server.{
  Config, InvitationRequest, LinkRequest, create_invitation, accept_invitation, get_identity,
}
use among_clusters.Server.Control.{control_message}
use among_clusters.Server.Onboarding.{create_onboarding_link, consume_onboarding, provider_bundle}
use among_clusters.Server.Settled.{
  create_invitation-Settles, accept_invitation-Settles, get_identity-Settles,
  create_onboarding_link-Settles, consume_onboarding-Settles, provider_bundle-Settles,
  control_message-Settles,
}

-- A request with its route, and what the handler reads from the clock and the source of entropy.
pub data Request : Type 0 where
  healthz : Request
  invite : Text → Option InvitationRequest → Option Text → Option Text → Time → Request
  link : Text → Option LinkRequest → Option Text → Option Text → Time → Request
  claim : Text → Text → Option Text → Option Text → Time → Time → Request
  bundle : Request
  accept : Text → Option InvitationAcceptance → Time → Request
  message : Text → Text → Option ControlMessage → Time → Time → Request
  lookup : Text → Text → Request

module _ {S : Type 0} (api : SovereignStore S) (config : Config) (c : Crypto) where
  unfoldable pub handle : Request → S → Outcome Response × S
  handle healthz s = (next (write_json 200 Http.empty), s)
  handle (invite header body id token now) s =
      create_invitation api config c header body id token now s
  handle (link header body id token now) s =
      create_onboarding_link api config c header body id token now s
  handle (claim id token iid itoken now later) s =
      consume_onboarding api config c id token iid itoken now later s
  handle bundle s = provider_bundle api config c s
  handle (accept id body now) s = accept_invitation api c id body now s
  handle (message tenant id body now later) s = control_message api c tenant id body now later s
  handle (lookup tenant id) s = get_identity api tenant id s

  -- The response to a request, and the store after it.
  unfoldable pub answer : Request → S → Response × S
  unfolding handle
  answer r s = respond (handle r s)

  -- The store after the requests, whatever was answered.
  unfoldable pub serve : S → List Request → S
  unfolding handle
  serve s [] = s
  serve s (r ∷ rs) = serve (handle r s).1 rs

module _ (config : Config) (c : Crypto) where
  handle-Extends : (r : Request) (s : MemoryStore) → Extends s (handle memory_store config c r s).1
  unfolding handle
  handle-Extends healthz s = Extends-refl s
  handle-Extends (invite header body id token now) s =
      (create_invitation-Settles config c header body id token now).at s
  handle-Extends (link header body id token now) s =
      (create_onboarding_link-Settles config c header body id token now).at s
  handle-Extends (claim id token iid itoken now later) s =
      (consume_onboarding-Settles config c id token iid itoken now later).at s
  handle-Extends bundle s = (provider_bundle-Settles config c).at s
  handle-Extends (accept id body now) s = (accept_invitation-Settles config c id body now).at s
  handle-Extends (message tenant id body now later) s =
      (control_message-Settles c tenant id body now later).at s
  handle-Extends (lookup tenant id) s = (get_identity-Settles config c tenant id).at s

  -- The store in memory (MemorySovereignStore), whatever requests the Hub's handlers serve over it, keeps
  -- what it has settled: used invitations and claims and registered identities stay as they are, no
  -- generation falls, used nonces stay used.
  pub serve-Extends :
      (rs : List Request) (s : MemoryStore) → Extends s (serve memory_store config c s rs)
  unfolding serve
  serve-Extends [] s = Extends-refl s
  serve-Extends (r ∷ rs) s =
      Extends-trans (handle-Extends r s) (serve-Extends rs (handle memory_store config c r s).1)
