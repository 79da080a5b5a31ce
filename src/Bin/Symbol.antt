-- ===== src/Bin/Symbol.antt =====
-- aicl/bin/symbol_types.py and the class Symbol of aicl/bin/types.py: operand tags and values.
use aicl.Common.{Bool, [], false, if◌then◌else◌, leb, same_list, suc, true, ℕ, ℤ, ◌&&◌, ◌==◌}
use aicl.Py.Struct.{Bytes}
use aicl.Py.Utf8.{Str}

-- What a tag says of the value behind it. The formats of `_FIXED_STRUCT` are `integer` (signed or
-- not, and the width in bytes), `single` and `double`.
pub data Kind : Type 0 where
  integer : Bool → ℕ → Kind
  single : Kind
  double : Kind
  boolean : Kind
  string : Kind
  byte_string : Kind
  uuid : Kind
  handle : Kind
  ref : Kind
  buf_ref : Kind
  list : Kind
  mapping : Kind
  null : Kind
  vendor : Kind
  unknown : Kind

-- The vendor range of operand tags.
abbrev pub is_vendor : ℕ → Bool
is_vendor tag = leb 0x80 tag && leb tag 0xFF

-- The `if`/`elif` chain over the tags that the encoder and the decoder share.
unfoldable pub kind_of : ℕ → Kind
kind_of tag =
    if tag == 0x01
    then integer true 1
    else if tag == 0x02
    then integer true 2
    else if tag == 0x03
    then integer true 4
    else if tag == 0x04
    then integer true 8
    else if tag == 0x05
    then integer false 1
    else if tag == 0x06
    then integer false 2
    else if tag == 0x07
    then integer false 4
    else if tag == 0x08
    then integer false 8
    else if tag == 0x09
    then single
    else if tag == 0x0A
    then double
    else if tag == 0x1A
    then integer true 8
    else if tag == 0x1B
    then integer false 4
    else if tag == 0x10
    then boolean
    else if tag == 0x11
    then string
    else if tag == 0x12
    then byte_string
    else if tag == 0x13
    then uuid
    else if tag == 0x14
    then handle
    else if tag == 0x15
    then ref
    else if tag == 0x16
    then buf_ref
    else if tag == 0x17
    then list
    else if tag == 0x18
    then mapping
    else if tag == 0x19
    then null
    else if is_vendor tag
    then vendor
    else unknown

-- An operand is a tag and a value. `Symbols` is a Python list of operands, `Entries` a dict from
-- `str` to operands in insertion order. A float is its 64 bits.
mutual
  pub data Symbol : Type 0 where
    symbol : ℕ → Value → Symbol

  pub data Value : Type 0 where
    int : ℤ → Value
    float : ℕ → Value
    bool : Bool → Value
    str : Str → Value
    bytes : Bytes → Value
    triple : ℤ → ℤ → ℤ → Value
    items : Symbols → Value
    dict : Entries → Value
    nothing : Value

  pub data Symbols : Type 0 where
    nil : Symbols
    cons : Symbol → Symbols → Symbols

  pub data Entries : Type 0 where
    end : Entries
    entry : Str → Symbol → Entries → Entries

abbrev pub tag_of : Symbol → ℕ
tag_of (symbol tag v) = tag

abbrev pub value_of : Symbol → Value
value_of (symbol tag v) = v

-- The value of a vendor operand is always bytes.
abbrev pub raw_of : Value → Bytes
raw_of (bytes b) = b
raw_of _ = []

abbrev pub count_symbols : Symbols → ℕ
count_symbols nil = 0
count_symbols (cons s ss) = suc (count_symbols ss)

abbrev pub count_entries : Entries → ℕ
count_entries end = 0
count_entries (entry k s es) = suc (count_entries es)

-- `result[key] = item`: an old key keeps its place, a new one goes last.
unfoldable pub dict_set : Entries → Str → Symbol → Entries
dict_set end k s = entry k s end
dict_set (entry j t es) k s =
    let rest = dict_set es k s in if same_list j k then entry j s es else entry j t rest
