-- ===== src/Transport/Address/RoundTrip.antt =====
-- aicl/transport/address.py: `parse` reads back what `__str__` prints.
use aicl.Common.{[], false, none, some, true, ℕ, ◌<◌, ◌==◌, ◌^◌, ◌∷◌, ◌≡◌}
use aicl.Py.Utf8.{Str}
use aicl.Transport.Address.{Address, is_local, is_network}
use aicl.Transport.Address.Decimal.{Lacks}

-- An address that its text determines: a local one with a path of one line, which is not empty, and
-- one of a network with a host without ":" and a port of sixteen bits.
pub data Printable : Address → Type 0 where
  at_path :
      {s : Str} {c : ℕ} {path : Str}
      → is_local s ≡ true
      → Lacks 0x0A (c ∷ path)
      → Printable (record { scheme = s; path = c ∷ path; host = none; port = none })
  at_host :
      {s : Str} {c : ℕ} {host : Str} {n : ℕ}
      → is_network s ≡ true
      → (c == 0x5B) ≡ false
      → Lacks 0x0A (c ∷ host)
      → Lacks 0x3A (c ∷ host)
      → n < 2 ^ 16
      → Printable (record { scheme = s; path = []; host = some (c ∷ host); port = some n })
