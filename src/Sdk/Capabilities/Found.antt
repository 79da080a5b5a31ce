-- ===== src/Sdk/Capabilities/Found.antt =====
-- aicl/sdk/capabilities.py: what `find`, `has` and `get` agree on.
use aicl.Common.{
  Bool-cases, List, [], arith, inl, inr, is_some, refl, same_list, same_list→eq, subst, true, ◌∷◌,
  ◌≡◌,
}
use aicl.Py.Utf8.{Str}
use aicl.Sdk.Capabilities.{Capability, find, get, has, matches, occurs_in, starts_with}

starts_with_self : (s : Str) → starts_with s s ≡ true
unfolding starts_with
starts_with_self [] = refl
starts_with_self (c ∷ s) = ground (arith, starts_with_self s)

occurs_in_self : (s : Str) → occurs_in s s ≡ true
unfolding occurs_in
occurs_in_self [] = starts_with_self []
occurs_in_self (c ∷ s) = ground (arith, starts_with_self (c ∷ s))

module _ (lower : Str → Str) where
  matches_name : (c : Capability) → matches lower c c.name ≡ true
  unfolding matches
  matches_name c = ground (arith, occurs_in_self (lower c.name))

  -- `find` has every capability of that name, and what it finds matches.
  pub find-has :
      (caps : List Capability) (name : Str)
      → has caps name ≡ true
      → (c : Capability) × (rest : List Capability) × (find lower caps name ≡ c ∷ rest)
        × (matches lower c name ≡ true)
  unfolding find has
  find-has [] name h = cc
  find-has (c ∷ caps) name h = elim (Bool-cases (matches lower c name)) [
    | inl here ↦ (c, find lower caps name, ground (arith, here), here)
    | inr there ↦ elim (Bool-cases (same_list c.name name)) [
      | inl same ↦
          let m : matches lower c name ≡ true =
            subst (λ (n : Str). matches lower c n ≡ true) (same_list→eq c.name name same)
              (matches_name c) in
          absurd (ground (arith, m, there))
      | inr differ ↦
          let (d, rest, is, m) = find-has caps name (ground (arith, differ, h)) in
          (d, rest, ground (arith, there, is), m)
    ]
  ]

-- `get` returns a capability of that name exactly if `has` says that there is one.
pub get-has : (caps : List Capability) (name : Str) → has caps name ≡ is_some (get caps name)
unfolding get has
get-has [] name = refl
get-has (c ∷ caps) name = ground (arith, get-has caps name)
