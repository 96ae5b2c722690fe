-- ===== src/Kubernetes/Advertising/Names.antt =====
-- internal/api/sovereign_store.go: the names of advertisements and imports, the local port of an import, and
-- sort.Strings.
use Prim.Native.Nat.{bit_xor}
use among_clusters.Prelude.{
  ℕ, ◌+◌, ◌*◌, ◌%◌, ◌^◌, Bool, true, false, List, [], ◌∷◌, ◌++◌, nat_eq, ltb, take, if◌then◌else◌,
}
use among_clusters.Text.{Text, codes, to_lower, dashes, trim_dash}
use among_clusters.Model.{AdvertisedService}

-- advertisementName
unfoldable pub advertisement_name : Text → AdvertisedService → Text
advertisement_name issuer v =
    trim_dash (
      take 63 (dashes (to_lower (issuer ++ (codes "-" ++ (v.namespace ++ (codes "-" ++ v.name)))))))

-- The name of the import of an advertisement by a peer.
unfoldable pub import_name : Text → Text → Text
import_name name peer = take 63 (name ++ (codes "-" ++ peer))

-- The state of hash/fnv New32a after the bytes.
unfoldable pub fnv32a : ℕ → Text → ℕ
fnv32a hash [] = hash
fnv32a hash (byte ∷ bytes) = fnv32a (bit_xor hash byte * 16777619 % 2 ^ 32) bytes

-- importPort
unfoldable pub import_port : Text → ℕ
unfolding fnv32a
import_port name = 20000 + fnv32a 2166136261 name % 10000

-- s <= t, byte by byte.
unfoldable pub text_le : Text → Text → Bool
text_le [] t = true
text_le (c ∷ s) [] = false
text_le (c ∷ s) (d ∷ t) =
    let rest = text_le s t in if ltb c d then true else if nat_eq c d then rest else false

unfoldable pub insert_text : Text → List Text → List Text
unfolding text_le
insert_text t [] = t ∷ []
insert_text t (u ∷ us) = let rest = insert_text t us in if text_le t u then t ∷ u ∷ us else u ∷ rest

-- sort.Strings
unfoldable pub sort_texts : List Text → List Text
unfolding insert_text
sort_texts [] = []
sort_texts (t ∷ ts) = insert_text t (sort_texts ts)
