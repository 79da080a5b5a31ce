-- ===== src/Transport/Address.antt =====
-- aicl/transport/address.py: transport addresses, parsed and printed. Texts are lists of code points.
pub mod Decimal
pub mod RoundTrip
pub mod Parsed
use mathlib.Core.Option
use aicl.Common.{
  Bool, Option, [], drop, if◌then◌else◌, is_some, leb, length, map, none, same_list, some, take, ℕ,
  ◌&&◌, ◌*◌, ◌++◌, ◌+◌, ◌==◌, ◌||◌, ◌∷◌,
}
use aicl.Py.Decimal.{show_number}
use aicl.Py.Result.{Result, err, guard, map_ok, ok, value_error, ◌>>=◌, ◌>>◌}
use aicl.Py.Utf8.{Str}

pub record Address : Type 0 where
  pub scheme : Str
  pub path : Str
  pub host : Option Str
  pub port : Option ℕ

abbrev pub unix : Str
unix = 0x75 ∷ 0x6E ∷ 0x69 ∷ 0x78 ∷ []

abbrev pub pipe : Str
pipe = 0x70 ∷ 0x69 ∷ 0x70 ∷ 0x65 ∷ []

abbrev pub shm : Str
shm = 0x73 ∷ 0x68 ∷ 0x6D ∷ []

abbrev pub tcp : Str
tcp = 0x74 ∷ 0x63 ∷ 0x70 ∷ []

abbrev pub quic : Str
quic = 0x71 ∷ 0x75 ∷ 0x69 ∷ 0x63 ∷ []

-- `scheme in ("tcp", "quic")` and `scheme in ("unix", "pipe", "shm")`, which is `is_local`.
unfoldable pub is_network : Str → Bool
is_network s = same_list s tcp || same_list s quic

unfoldable pub is_local : Str → Bool
is_local s = same_list s unix || (same_list s pipe || same_list s shm)

unfoldable pub is_stream : Str → Bool
unfolding is_network
is_stream s = same_list s unix || (same_list s pipe || is_network s)

unfoldable pub is_datagram : Str → Bool
is_datagram s = same_list s shm

-- `__post_init__`: the scheme is one of VALID_SCHEMES.
unfoldable pub new_address : Address → Result Address
unfolding is_network is_local
new_address a = do guard (is_local a.scheme || is_network a.scheme) value_error; ok a

-- The classes [a-zA-Z] and [a-zA-Z0-9+-].
abbrev pub is_letter : ℕ → Bool
is_letter c = (leb 0x41 c && leb c 0x5A) || (leb 0x61 c && leb c 0x7A)

abbrev pub is_scheme_char : ℕ → Bool
is_scheme_char c = is_letter c || ((leb 0x30 c && leb c 0x39) || (c == 0x2B || c == 0x2D))

-- `[a-zA-Z0-9+-]*?://` lazily: what stands before the first "://", and what follows it.
unfoldable pub scan_scheme : Str → Option (Str × Str)
scan_scheme [] = none
scan_scheme (c ∷ src) =
    let rest = scan_scheme src in
    if same_list (take 3 (c ∷ src)) (0x3A ∷ 0x2F ∷ 0x2F ∷ [])
    then some ([], drop 2 src)
    else if is_scheme_char c
    then Option.map (λ p. (c ∷ p.0, p.1)) rest
    else none

-- `(.*)$`: no newline but one at the end, which the group leaves out.
unfoldable pub match_line : Str → Option Str
match_line [] = some []
match_line (c ∷ src) =
    let rest = Option.map (λ s. c ∷ s) (match_line src) in
    if c == 0x0A then (if length src == 0 then some [] else none) else rest

-- The whole pattern of the scheme.
abbrev pub finish_match : ℕ → Option (Str × Str) → Option (Str × Str)
finish_match c none = none
finish_match c (some (s, rest)) = Option.map (λ l. (c ∷ s, l)) (match_line rest)

unfoldable pub match_uri : Str → Option (Str × Str)
unfolding scan_scheme match_line
match_uri [] = none
match_uri (c ∷ src) = if is_letter c then finish_match c (scan_scheme src) else none

-- `lower` on ASCII letters, digits, "+" and "-".
abbrev pub lower : Str → Str
lower s = map (λ c. if leb 0x41 c && leb c 0x5A then c + 32 else c) s

-- The longest run of characters other than `x`, and what follows.
unfoldable pub run_until : ℕ → Str → Str × Str
run_until x [] = ([], [])
run_until x (c ∷ src) = let (a, b) = run_until x src in if c == x then ([], c ∷ src) else (c ∷ a, b)

-- The second pattern is tried when the first fails.
abbrev pub or_else : Option (Str × Str) → Option (Str × Str) → Option (Str × Str)
or_else none other = other
or_else (some p) other = some p

-- The patterns `\d` and `int` know every decimal digit of Unicode: `decimal` gives the value of one.
module _ (decimal : ℕ → Option ℕ) where
  unfoldable pub read_digits : ℕ → Str → Option ℕ
  read_digits acc [] = some acc
  read_digits acc (c ∷ src) = elim (decimal c) [
    | none ↦ none
    | some d ↦ read_digits (acc * 10 + d) src
  ]

  -- `:(\d+)$`, where no newline can follow, behind a group that is not empty.
  unfoldable pub match_port : Str → Str → Option (Str × Str)
  unfolding read_digits
  match_port [] src = none
  match_port (h ∷ host) [] = none
  match_port (h ∷ host) (c ∷ []) = none
  match_port (h ∷ host) (c ∷ d ∷ digits) =
      if c == 0x3A && is_some (read_digits 0 (d ∷ digits))
      then some (h ∷ host, d ∷ digits)
      else none

  -- `([^:]+):(\d+)$`
  unfoldable pub match_host : Str → Option (Str × Str)
  unfolding match_port run_until
  match_host src = match_port (run_until 0x3A src).0 (run_until 0x3A src).1

  -- `\[([^\]]+)\]:(\d+)$`
  unfoldable pub match_ipv6 : Str → Option (Str × Str)
  unfolding match_port run_until
  match_ipv6 [] = none
  match_ipv6 (c ∷ src) =
      if c == 0x5B then match_port (run_until 0x5D src).0 (drop 1 (run_until 0x5D src).1) else none

  -- `int(port_str)`, which takes at most 4300 digits.
  unfoldable pub int_of : Str → Result ℕ
  unfolding read_digits
  int_of digits = elim (read_digits 0 digits) [
    | none ↦ err value_error
    | some n ↦ if leb (length digits) 4300 then ok n else err value_error
  ]

  abbrev pub with_port : Str → Option (Str × Str) → Result Address
  with_port scheme none = err value_error
  with_port scheme (some (host, digits)) =
      map_ok (λ n. record { scheme = scheme; path = []; host = some host; port = some n })
        (int_of digits)

  -- `parse` behind the first pattern.
  abbrev pub parse_match : Str → Option (Str × Str) → Result Address
  parse_match uri none = ok (record { scheme = unix; path = uri; host = none; port = none })
  parse_match uri (some (s, rest)) =
      if is_network (lower s)
      then with_port (lower s) (or_else (match_ipv6 rest) (match_host rest))
      else if is_local (lower s)
      then ok (record { scheme = lower s; path = rest; host = none; port = none })
      else err value_error

  unfoldable pub parse : Str → Result Address
  unfolding new_address
  parse [] = err value_error
  parse (c ∷ src) = parse_match (c ∷ src) (match_uri (c ∷ src)) >>= new_address

abbrev pub show_port : Option ℕ → Str
show_port none = 0x4E ∷ 0x6F ∷ 0x6E ∷ 0x65 ∷ []
show_port (some n) = show_number n

-- `__str__`
abbrev pub show_rest : Str → Str → Option Str → Option ℕ → Str
show_rest scheme [] none port = scheme ++ (0x3A ∷ [])
show_rest scheme (c ∷ path) none port = scheme ++ (0x3A ∷ 0x2F ∷ 0x2F ∷ c ∷ path)
show_rest scheme path (some h) port =
    scheme ++ (0x3A ∷ 0x2F ∷ 0x2F ∷ (h ++ (0x3A ∷ show_port port)))

unfoldable pub show_address : Address → Str
unfolding show_number
show_address a = show_rest a.scheme a.path a.host a.port
