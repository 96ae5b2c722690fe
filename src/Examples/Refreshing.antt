-- ===== src/Examples/Refreshing.antt =====
-- The refresh of an identity's Secret whose leaf certificate runs out, with toy certificates.
use among_clusters.Prelude.{◌≡◌, ◌⊎◌, refl, true, some, none, [], arith, if◌then◌else◌}
use among_clusters.Prelude.Int.{pos, ltb_ℤ, ◌+ℤ◌}
use among_clusters.Text.{codes, ◌==◌, is_empty}
use among_clusters.Time.{before, add, seconds}
use among_clusters.Protocol
use among_clusters.Result.{ok, invalid_claim}
use among_clusters.Certificates
use among_clusters.Certificates.{X509, Entropy}
use among_clusters.Agent
use among_clusters.Agent.Identity
use among_clusters.Agent.{Agent, format_uint}
use among_clusters.Agent.Identity.{
  IdentitySecret, needs_root, refresh_tls_secret, load_identity, load_or_create,
}
use among_clusters.Agent.Identity.Restart.{load_identity_sequence}
use among_clusters.Agent.Identity.Refresh.{Lasts, IsFresh, IsRotated, refresh_tls_secret-IsRotated}
use among_clusters.Examples.Beating.{agent}
use among_clusters.Examples.Fixtures.{noon, later_that_day, key_text}

-- Every certificate is a root of the agent's key; a text `old` has expired.
abbrev certificates : X509
certificates = record {
  decode = λ t. some (codes "CERTIFICATE", t);
  encode = λ kind bytes. bytes;
  parse = λ t. some (record {
    is_ca = true;
    public_key = some key_text;
    not_after = if t == codes "old" then pos 0 else later_that_day;
  });
  create = λ template parent public private. some (codes "leaf");
  marshal_key = λ k. some k;
  parse_url = λ t. some t;
  public = λ k. key_text;
  sha256 = λ t. t;
  add_years = λ n t. t;
}

abbrev entropy : Entropy
entropy = record {
  root_serial = some 1;
  leaf_serial = some 2;
  leaf_keys = some (codes "public", codes "private");
}

abbrev secret : IdentitySecret
secret = record {
  certificate = codes "old";
  certificate_key = codes "key";
  bundle = codes "root";
  private_key = key_text;
  public_key = key_text;
  bundle_digest = [];
  generation = codes "4";
}

abbrev refreshed : IdentitySecret
refreshed = (refresh_tls_secret certificates invalid_claim agent none secret noon entropy).1

unfoldable refresh_code : Unit {0}
unfolding ◌==◌ is_empty before add seconds ltb_ℤ ◌+ℤ◌ Protocol.hex Agent.spiffe_id
    Certificates.bundle_digest Certificates.leaf_template Certificates.leaf_material
    Certificates.issue_leaf Certificates.rotate_from Certificates.rotate
    Identity.certificate_expires_before Identity.needs_root Identity.needs_leaf
    Identity.with_material Identity.new_material Identity.update_secret Identity.refresh_tls_secret
refresh_code = tt

renews : refreshed.certificate ≡ codes "leafroot"
unfolding refresh_code
renews = refl

refreshes :
    refresh_tls_secret certificates invalid_claim agent none secret noon entropy
    ≡ (ok tt, refreshed)
unfolding refresh_code
refreshes = refl

kept_root : Lasts certificates secret.bundle noon
unfolding refresh_code
kept_root = record {
  block = (codes "CERTIFICATE", codes "root");
  certificate = record { is_ca = true; public_key = some key_text; not_after = later_that_day };
  present = λ e. absurd cc;
  decodes = refl;
  parses = refl;
  valid = omega arith;
}

refresh_tls_secret-IsRotated_example :
    ((refreshed ≡ secret) × IsFresh certificates secret noon)
    ⊎ IsRotated certificates invalid_claim agent none secret refreshed noon entropy
refresh_tls_secret-IsRotated_example =
    refresh_tls_secret-IsRotated certificates invalid_claim agent none secret refreshed noon entropy
      kept_root refreshes

-- The same Secret with a private key of 64 bytes.
abbrev stored : IdentitySecret
stored = record secret {
  private_key = codes "0123456789abcdef0123456789abcdef0123456789abcdef0123456789abcdef";
}

abbrev after_load : IdentitySecret
after_load = (load_identity certificates invalid_claim agent none stored noon entropy).1

abbrev restarted : Agent
restarted = record agent { key = stored.private_key; sequence = 4 }

loads :
    load_identity certificates invalid_claim agent none stored noon entropy
    ≡ (ok restarted, after_load)
unfolding refresh_code Agent.parse_uint Identity.load_identity
loads = refl

stored_generation : stored.generation ≡ format_uint 4
unfolding Agent.format_uint
stored_generation = refl

load_identity_sequence_example :
    (restarted.sequence ≡ 4)
    × (restarted.key ≡ stored.private_key)
    × (after_load.generation ≡ format_uint 4)
load_identity_sequence_example =
    load_identity_sequence certificates invalid_claim none stored noon entropy agent restarted
      after_load 4 (omega arith) stored_generation loads

-- The first start of an agent makes a Secret, and the agent begins at 0.
first_start :
    (load_or_create certificates invalid_claim agent none none
      (some stored.private_key)
      noon
      noon
      entropy
      entropy
      (ok none)).0
    ≡ ok (record restarted { sequence = 0 })
unfolding refresh_code Agent.parse_uint Certificates.root_template Certificates.from_private_key
    Certificates.generate Identity.new_secret Identity.load_identity Identity.load_or_create
first_start = refl
