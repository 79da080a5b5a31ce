-- ===== src/Sdk/Capabilities.antt =====
-- aicl/sdk/capabilities.py: sets of capabilities. Texts are lists of code points.
pub mod Found
use aicl.Common.{
  Bool, List, Option, [], false, if◌then◌else◌, map, none, same_list, some, true, ℕ, ◌&&◌, ◌++◌,
  ◌==◌, ◌||◌, ◌∷◌,
}
use aicl.Bin.Header.{max_payload}
use aicl.Py.Utf8.{Str}
use aicl.Transport.Address.{lower}

pub record Capability : Type 0 where
  pub name : Str
  pub version : Str
  pub description : Str
  pub max_payload : ℕ
  pub tags : List Str

-- `q in text`: some part of the text starts with q.
unfoldable pub starts_with : Str → Str → Bool
starts_with [] text = true
starts_with (c ∷ q) [] = false
starts_with (c ∷ q) (d ∷ text) = c == d && starts_with q text

unfoldable pub occurs_in : Str → Str → Bool
unfolding starts_with
occurs_in q [] = starts_with q []
occurs_in q (d ∷ text) = starts_with q (d ∷ text) || occurs_in q text

-- `str.lower` follows tables of Unicode: `lower` stands for it.
module _ (lower : Str → Str) where
  unfoldable pub any_tag : Str → List Str → Bool
  unfolding occurs_in
  any_tag q [] = false
  any_tag q (t ∷ tags) = occurs_in q (lower t) || any_tag q tags

  unfoldable pub matches : Capability → Str → Bool
  unfolding any_tag occurs_in
  matches cap query =
      occurs_in (lower query) (lower cap.name)
      || (occurs_in (lower query) (lower cap.description) || any_tag (lower query) cap.tags)

  unfoldable pub find : List Capability → Str → List Capability
  unfolding matches
  find [] query = []
  find (c ∷ caps) query = let rest = find caps query in if matches c query then c ∷ rest else rest

unfoldable pub has : List Capability → Str → Bool
has [] name = false
has (c ∷ caps) name = same_list c.name name || has caps name

unfoldable pub get : List Capability → Str → Option Capability
get [] name = none
get (c ∷ caps) name = let rest = get caps name in if same_list c.name name then some c else rest

abbrev pub names : List Capability → List Str
names caps = map (λ c. c.name) caps

abbrev pub add : List Capability → Capability → List Capability
add caps cap = caps ++ (cap ∷ [])
