-- ===== src/Transport/Address/Parsed.antt =====
-- aicl/transport/address.py: the addresses that `parse` returns.
use aicl.Common.{
  Bool-cases, Option, Option-cases, [], ap, arith, drop, inl, inr, none, refl, some, subst, sym,
  true, ℕ, ◌||◌, ◌∙◌, ◌∷◌, ◌≡◌, ◌⊎◌,
}
use aicl.Py.Result.{>>=-eq-ok, Exc, err, guard, map_ok-eq-ok, ok, ok-injective, value_error, ◌>>◌}
use aicl.Py.Utf8.{Str}
use aicl.Transport.Address.{
  Address, int_of, is_local, is_network, lower, match_host, match_ipv6, match_port, match_uri,
  new_address, or_else, parse, parse_match, run_until, with_port,
}

-- A local address with neither host nor port, or one of a network with both and no path.
abbrev pub IsParsed : Address → Type 0
IsParsed a =
    ((is_local a.scheme ≡ true) × (a.host ≡ none) × (a.port ≡ none))
    ⊎ ((is_network a.scheme ≡ true)
        × (a.path ≡ [])
        × (h : ℕ) × (host : Str) × (n : ℕ) × (a.host ≡ some (h ∷ host))
        × (a.port ≡ some n))

ok_not_err : {a : Address} {x : Exc} → ok a ≡ err x → ⊥
ok_not_err e = cc

module _ (decimal : ℕ → Option ℕ) where
  match_port-eq :
      (host src : Str) {p : Str × Str}
      → match_port decimal host src ≡ some p
      → (h : ℕ) × (t : Str) × (p.0 ≡ h ∷ t)
  unfolding match_port
  match_port-eq [] src e = cc
  match_port-eq (h ∷ host) [] e = cc
  match_port-eq (h ∷ host) (c ∷ []) e = cc
  match_port-eq (h ∷ host) (c ∷ d ∷ digits) e = (h, host, ground (arith, e))

  -- A host that a pattern gives is not empty.
  match_ipv6-eq :
      (src : Str) {p : Str × Str}
      → match_ipv6 decimal src ≡ some p
      → (h : ℕ) × (t : Str) × (p.0 ≡ h ∷ t)
  unfolding match_ipv6
  match_ipv6-eq [] e = cc
  match_ipv6-eq (c ∷ src) {p = p} e =
      match_port-eq (run_until 0x5D src).0 (drop 1 (run_until 0x5D src).1) {p = p}
        (ground (arith, e))

  or_else-eq :
      (src : Str) {p : Str × Str}
      → or_else (match_ipv6 decimal src) (match_host decimal src) ≡ some p
      → (h : ℕ) × (t : Str) × (p.0 ≡ h ∷ t)
  unfolding match_host
  or_else-eq src {p = p} e = elim (Option-cases (match_ipv6 decimal src)) [
    | inl gone ↦
        match_port-eq (run_until 0x3A src).0 (run_until 0x3A src).1 {p = p}
          (ground (arith, gone, e))
    | inr (q, is) ↦ match_ipv6-eq src {p = p} (ground (arith, is, e))
  ]

  with_port-eq :
      (s : Str) (m : Option (Str × Str)) {a : Address}
      → with_port decimal s m ≡ ok a
      → (host digits : Str) × (n : ℕ) × (m ≡ some (host, digits))
        × (a ≡ record { scheme = s; path = []; host = some host; port = some n })
  with_port-eq s none e = cc
  with_port-eq s (some (host, digits)) e =
      let (n, _, is) = map_ok-eq-ok _ (int_of decimal digits) e in (host, digits, n, refl, sym is)

  network-IsParsed :
      (s rest : Str) {a : Address}
      → is_network s ≡ true
      → with_port decimal s (or_else (match_ipv6 decimal rest) (match_host decimal rest)) ≡ ok a
      → IsParsed a
  network-IsParsed s rest net e =
      let (host, digits, n, found, is) = with_port-eq s _ e in
      let (h, t, host_is) = or_else-eq rest found in
      subst IsParsed (sym is) (inr (net, refl, h, t, n, ap some host_is, refl))

  parse_match-IsParsed :
      (uri : Str) (m : Option (Str × Str)) {a : Address}
      → parse_match decimal uri m ≡ ok a
      → IsParsed a
  unfolding is_local
  parse_match-IsParsed uri none {a = a} e = subst IsParsed (ok-injective e) (inl (refl, refl, refl))
  parse_match-IsParsed uri (some (s, rest)) {a = a} e = elim (Bool-cases (is_network (lower s))) [
    | inl net ↦ network-IsParsed (lower s) rest net (ground (arith, net, e))
    | inr local ↦ elim (Bool-cases (is_local (lower s))) [
      | inl here ↦
          subst IsParsed
            (ok-injective {a = record { scheme = lower s; path = rest; host = none; port = none }}
              {b = a} (ground (arith, local, here, e)))
            (inl (here, refl, refl))
      | inr other ↦ absurd (grind (arith, local, other, e))
    ]
  ]

  new_address-eq : (b : Address) {a : Address} → new_address b ≡ ok a → b ≡ a
  unfolding new_address
  new_address-eq b {a = a} e = elim (Bool-cases (is_local b.scheme || is_network b.scheme)) [
    | inl valid ↦ ok-injective (sym (ap (λ t. guard t value_error >> ok b) valid) ∙ e)
    | inr not_valid ↦ absurd (ok_not_err (sym e ∙ ap (λ t. guard t value_error >> ok b) not_valid))
  ]

  -- What `parse` returns is a local address with neither host nor port, or an address of a network
  -- with a port, a host that is not empty, and no path.
  pub parse-IsParsed : (uri : Str) (a : Address) → parse decimal uri ≡ ok a → IsParsed a
  unfolding parse new_address
  parse-IsParsed [] a e = cc
  parse-IsParsed (c ∷ src) a e =
      let (b, is, made) =
        >>=-eq-ok (parse_match decimal (c ∷ src) (match_uri (c ∷ src))) new_address e in
      subst IsParsed (new_address-eq b made)
        (parse_match-IsParsed (c ∷ src) (match_uri (c ∷ src)) is)
