-- ===== src/Helper.antt =====
-- helper/funcs.go. Hashes, regular expressions and the ticks of a timer are parameters.
pub mod Recent
use replicator.Base.{
  ℕ, String, ◌<>◌, Bool, true, false, not, none, some, List, [], ◌∷◌, if◌then◌else◌, ◌==◌,
  string_eq, nat_eq, Result, ok, err,
}
use replicator.Base.Dict.{Dict, lookup}

-- `StringInSlice`
unfoldable pub string_in_slice : String → List String → Bool
string_in_slice a [] = false
string_in_slice a (b ∷ list) = if b == a then true else string_in_slice a list

-- `ParseMetaConfig`: the required keys that are missing, in order.
unfoldable pub parse_meta_config : Dict String String → List String → List String
parse_meta_config meta [] = []
parse_meta_config meta (key ∷ keys) =
    let rest = parse_meta_config meta keys in
    elim (lookup key meta) [ none ↦ key ∷ rest | some v ↦ rest ]

-- `HasObjectChanged`: whether the hashes differ, and whether hashing failed.
unfoldable pub has_object_changed {ℓ} : {A : Type ℓ} → (A → Result ℕ) → A → A → Bool × Bool
has_object_changed hash a b = elim (hash a) [
  | err ↦ (false, true)
  | ok m ↦ elim (hash b) [ err ↦ (false, true) | ok n ↦ (not (m == n), false) ]
]

abbrev num_block : String
num_block = "(25[0-5]|2[0-4][0-9]|1[0-9][0-9]|[1-9]?[0-9])"

-- `FindIP`: the first match of the pattern, which `regexp` finds.
unfoldable pub find_ip : (String → String → String) → String → String
find_ip find_string input =
    find_string (num_block <> "\\." <> num_block <> "\\." <> num_block <> "\\." <> num_block) input
