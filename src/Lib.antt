-- ===== src/Lib.antt =====
-- among-clusters: a Hub registers clusters and takes their signed messages, gateways join the
-- services of clusters over authenticated sessions, and a credential broker keeps sealed credentials
-- and uses them for its callers. A cluster enrols at the Hub with an invitation (or with a claim,
-- which yields one), and from then on sends control messages signed with its registered key; the
-- Hub writes their effects into its store, the reconciler derives states from them, and the broker
-- looks the sender of a message up at the Hub.
--
-- Prelude, Text, Time, Dict, Result: the native numbers with signed integers (int64, int32), Go
-- strings as lists of bytes, instants and durations in nanoseconds, maps with string keys, and
-- results with an error. Model: internal/model/model.go.
--
-- Crypto, Protocol, Protocol.Verification, Protocol.Identity: internal/protocol/control.go. token_hash
-- is TokenHash, validate_identity ValidateIdentity, sign and verify Sign and Verify.
--
-- Store and its children: internal/api/sovereign_store.go. SovereignStore is the interface, as a
-- record of operations on any state; MemoryStore is the state of MemorySovereignStore, and
-- memory_store the record of its methods. Invitations, Claims, Generations and Capabilities treat one
-- method each, History the sequences of calls and what stays settled along them (Extends).
--
-- Versioned: changes of one object of the Kubernetes API server that present the version that was read
-- (Get, check, Update), as the methods of KubernetesSovereignStore in the same file make them. attempts
-- is the loop of a method; Interleaving splits it into steps, so that several processes and other
-- writers act on the object in any order; Alone shows that the steps of an undisturbed process are
-- the loop, Rounds bounds the steps, Linear and its children order what a run writes.
--
-- Kubernetes and its children: KubernetesSovereignStore, of the same file. Secrets: onboarding claims
-- and invitations (Claims: concurrent requests; Refinement and Simulation: the store in memory as the
-- specification). Generations: LastGeneration and RecordGeneration (Ascending: concurrent messages).
-- Namespace: the custom resources of a tenant. Advertising and Publishing: SyncAdvertisements, its
-- checks and its writes. Grants: PendingGrants, FulfillGrant and ObserveLink. Kubernetes itself and
-- Confirmations: Identity and ConfirmPeerBundle.
--
-- Agent and its children: cmd/agent/main.go. Messages: the control messages and the registration;
-- Services: the advertised services and the gateway's routes; Identity: the identity's Secret, which
-- is loaded or made at a start and refreshed, and the checks on a peer's certificate; Numbers: what
-- strconv reads back; Access: the reconciliation of a grant; Heartbeat: the agent's messages at the Hub.
--
-- Certificates and Certificates.Rotation: internal/identity/identity.go, which the agent calls to make
-- and to renew the certificates of its Secret.
--
-- Http: handlers as actions on a state that stop with a response or go on (Rules: what a chain that
-- went on has passed; Clean: chains that change nothing when they stop). Server and its children:
-- internal/api/sovereign_server.go (createInvitation, acceptInvitation, controlMessage) and
-- internal/api/onboarding.go (createOnboardingLink, consumeOnboarding, providerBundle); Server.Routes
-- is the handler of all routes and serves sequences of requests. The handlers are defined over any
-- SovereignStore; the theorems on them are over MemorySovereignStore. cmd/hub/main.go starts the Hub
-- over KubernetesSovereignStore, whose methods have theorems of their own (Kubernetes); it differs from
-- the store in memory in that it keeps the last nonce only and does not report capabilities.
--
-- Reconciler and its children: internal/api/sovereign_reconciler.go, one function for each of the five
-- passes, and Once for all of them. Health: internal/health/health.go. Signing:
-- internal/signing/signing.go. Credential: internal/credential/envelope.go.
--
-- Gateway and its children: cmd/gateway/main.go, the registry of sessions (Sessions), the frames that
-- name a service (Frames) and the decision on an export (Exports).
--
-- Broker and its children: cmd/broker/main.go, the handlers store and revoke (Authorized, Stored,
-- Generations), proxy (Proxy, Permission, Proxying, Using) and the names of Secrets (Names).
--
-- Examples: concrete data, runs of the programs on it, and the theorems at inputs that meet their
-- hypotheses.
--
-- Parameters are what is not code of the repository: Ed25519, SHA-256, base64 and JSON (Crypto), X25519
-- and AES-GCM (Credential.Suite), X.509 and PEM (Certificates.X509), the layouts of time (Rfc3339, and
-- an argument of Signing), the API server's answers, and the Hub's as the broker sees them
-- (Broker.World). Of the repository's own code, the agent's uploadCredential and revokeCredential, which
-- are exchanges with the broker over HTTP, are parameters too (Agent.Access.Outside). Clock readings
-- and random values are arguments of the handlers. Where a theorem needs the documented behaviour of
-- outside code, it is a hypothesis (IsSound, IsOptimistic, IsReliable, IsNamed).
--
-- Every definition is structurally recursive, so that no fuel is used; FormatUint writes at most 20
-- digits, which hold every uint64. Durations, the ports of Services and the agent's sequence number
-- wrap around as int64, int32 and uint64 do, and a generation is kept as an int64 in the cluster's
-- status; other generations are naturals, and no code adds to them.
--
-- Not modelled: the agent's main loop and its HTTP exchanges, transport, sockets and the copying of
-- bytes, and the text of the installation document. At the store in memory, requests come one at a
-- time: it holds a mutex for each method, but the interleaving of the methods of two handlers is left
-- out. In the Kubernetes store, concurrent calls are modelled for claims and generations; the methods
-- on several resources have no other writer during the call. Case mapping and white space are those
-- of ASCII. The error texts of Verify that wrap another error are cut to their first words.
pub mod Prelude
pub mod Text
pub mod Dict
pub mod Time
pub mod Model
pub mod Crypto
pub mod Protocol
pub mod Result
pub mod Store
pub mod Http
pub mod Server
pub mod Health
pub mod Reconciler
pub mod Gateway
pub mod Signing
pub mod Credential
pub mod Broker
pub mod Versioned
pub mod Certificates
pub mod Kubernetes
pub mod Agent
mod Examples
