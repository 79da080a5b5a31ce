-- ===== src/Bin/Operands/Fits.antt =====
-- aicl/bin/operands.py: the operands that the wire format holds.
use aicl.Common.{false, length, same_list, ℕ, ◌<◌, ◌^◌, ◌≡◌}
use aicl.Bin.Symbol.{
  Entries, Kind, Symbol, Symbols, Value, bool, boolean, buf_ref, byte_string, bytes, cons,
  count_entries, count_symbols, dict, double, end, entry, float, handle, int, integer, items,
  kind_of, list, mapping, nil, nothing, null, ref, single, str, string, symbol, triple, uuid,
  vendor,
}
use aicl.Py.Float.{narrow, widen}
use aicl.Py.Ints.{InRange}
use aicl.Py.Result.{ok}
use aicl.Py.Struct.{Bytes}
use aicl.Py.Utf8.{Str, utf8_encode}

-- No entry of the dict has the key.
abbrev pub Fresh : Str → Entries → Type 0
Fresh k end = Unit {0}
Fresh k (entry j s es) = (same_list j k ≡ false) × Fresh k es

-- A text whose encoding has a length that a varint holds.
abbrev pub FitsStr : Str → Type 0
FitsStr s = (b : Bytes) × (utf8_encode s ≡ ok b) × (length b < 2 ^ 28)

-- A double that is the value of a single.
abbrev pub FitsSingle : ℕ → Type 0
FitsSingle d = (s : ℕ) × (narrow d ≡ ok s) × (s < 2 ^ 32) × (widen s ≡ d)

-- A value has the Python type that goes with the tag's kind, within the ranges of its format;
-- lengths and counts are below 2^28, and the keys of a dict differ.
abbrev mutual
  pub Fits : Symbol → Type 0
  Fits (symbol tag v) = (tag < 256) × FitsValue v (kind_of tag)

  pub FitsValue : Value → Kind → Type 0
  FitsValue (int z) (integer s w) = InRange s w z
  FitsValue (int z) handle = InRange false 8 z
  FitsValue (int z) ref = InRange false 2 z
  FitsValue (float d) single = FitsSingle d
  FitsValue (float d) double = d < 2 ^ 64
  FitsValue (bool b) boolean = Unit {0}
  FitsValue (str s) string = FitsStr s
  FitsValue (bytes b) byte_string = length b < 2 ^ 28
  FitsValue (bytes b) uuid = length b ≡ 16
  FitsValue (bytes b) vendor = length b < 2 ^ 28
  FitsValue (triple a b c) buf_ref = InRange false 8 a × InRange false 4 b × InRange false 4 c
  FitsValue (items ss) list = (count_symbols ss < 2 ^ 28) × FitsItems ss
  FitsValue (dict es) mapping = (count_entries es < 2 ^ 28) × FitsEntries es
  FitsValue nothing null = Unit {0}
  FitsValue _ _ = ⊥

  pub FitsItems : Symbols → Type 0
  FitsItems nil = Unit {0}
  FitsItems (cons s ss) = Fits s × FitsItems ss

  pub FitsEntries : Entries → Type 0
  FitsEntries end = Unit {0}
  FitsEntries (entry k s es) = FitsStr k × Fits s × FitsEntries es × Fresh k es
