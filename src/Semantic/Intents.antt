-- ===== src/Semantic/Intents.antt =====
-- aicl/semantic/types.py and aicl/semantic/fast_codec.py: what a model wants to do, with the opcode and
-- the byte of each intent.
pub mod Codes
use aicl.Common.{List, Option, [], if◌then◌else◌, is_some, none, same_list, some, ℕ, ◌==◌, ◌∷◌}
use aicl.Py.Any.{Any, codes, of_str}
use aicl.Py.Utf8.{Str}

pub data ModelIntent : Type 0 where
  classify : ModelIntent
  generate : ModelIntent
  reason : ModelIntent
  embed : ModelIntent
  rank : ModelIntent
  summarize : ModelIntent
  synthesize : ModelIntent
  verify : ModelIntent
  extract : ModelIntent
  transform : ModelIntent
  plan : ModelIntent
  evaluate : ModelIntent
  call_model : ModelIntent
  call_tool : ModelIntent
  read_memory : ModelIntent
  write_memory : ModelIntent
  delete_memory : ModelIntent
  index_query : ModelIntent
  index_upsert : ModelIntent
  route : ModelIntent
  filter_intent : ModelIntent
  return_result : ModelIntent
  stream_result : ModelIntent
  cancel_intent : ModelIntent

-- INTENT_TO_OPCODE
abbrev pub intent_to_opcode : ModelIntent → ℕ
intent_to_opcode classify = 0x43
intent_to_opcode generate = 0x46
intent_to_opcode reason = 0x44
intent_to_opcode embed = 0x42
intent_to_opcode rank = 0x46
intent_to_opcode summarize = 0x46
intent_to_opcode synthesize = 0x46
intent_to_opcode verify = 0x44
intent_to_opcode extract = 0x46
intent_to_opcode transform = 0x46
intent_to_opcode plan = 0x46
intent_to_opcode evaluate = 0x46
intent_to_opcode call_model = 0x40
intent_to_opcode call_tool = 0x41
intent_to_opcode read_memory = 0x20
intent_to_opcode write_memory = 0x21
intent_to_opcode delete_memory = 0x22
intent_to_opcode index_query = 0x23
intent_to_opcode index_upsert = 0x24
intent_to_opcode route = 0x03
intent_to_opcode filter_intent = 0x46
intent_to_opcode return_result = 0x11
intent_to_opcode stream_result = 0x12
intent_to_opcode cancel_intent = 0x09

-- _INTENT_BYTE of the fast codec.
abbrev pub intent_byte : ModelIntent → ℕ
intent_byte classify = 0x01
intent_byte generate = 0x02
intent_byte reason = 0x03
intent_byte embed = 0x04
intent_byte rank = 0x05
intent_byte summarize = 0x06
intent_byte synthesize = 0x07
intent_byte verify = 0x08
intent_byte extract = 0x09
intent_byte transform = 0x0A
intent_byte plan = 0x0B
intent_byte evaluate = 0x0C
intent_byte call_model = 0x10
intent_byte call_tool = 0x11
intent_byte read_memory = 0x20
intent_byte write_memory = 0x21
intent_byte delete_memory = 0x22
intent_byte index_query = 0x23
intent_byte index_upsert = 0x24
intent_byte route = 0x30
intent_byte filter_intent = 0x31
intent_byte return_result = 0x40
intent_byte stream_result = 0x41
intent_byte cancel_intent = 0xFF

-- The intents in the order of both tables.
abbrev pub all_intents : List ModelIntent
all_intents =
    classify ∷ generate ∷ reason ∷ embed ∷ rank ∷ summarize ∷ synthesize ∷ verify ∷ extract
    ∷ transform ∷ plan ∷ evaluate ∷ call_model ∷ call_tool ∷ read_memory ∷ write_memory
    ∷ delete_memory ∷ index_query ∷ index_upsert ∷ route ∷ filter_intent ∷ return_result
    ∷ stream_result ∷ cancel_intent ∷ []

-- The inverse of a table, as the comprehension `{v: k for k, v in table.items()}` builds it: the last
-- entry of a value stays.
unfoldable pub last_with : (ModelIntent → ℕ) → ℕ → List ModelIntent → Option ModelIntent
last_with table v [] = none
last_with table v (i ∷ intents) =
    let rest = last_with table v intents in
    if is_some rest then rest else if table i == v then some i else none

unfoldable pub opcode_to_intent : ℕ → Option ModelIntent
unfolding last_with
opcode_to_intent opcode = last_with intent_to_opcode opcode all_intents

unfoldable pub byte_to_intent : ℕ → Option ModelIntent
unfolding last_with
byte_to_intent byte = last_with intent_byte byte all_intents

-- `intent.value`
abbrev pub intent_value : ModelIntent → Str
intent_value classify = codes "CLASSIFY"
intent_value generate = codes "GENERATE"
intent_value reason = codes "REASON"
intent_value embed = codes "EMBED"
intent_value rank = codes "RANK"
intent_value summarize = codes "SUMMARIZE"
intent_value synthesize = codes "SYNTHESIZE"
intent_value verify = codes "VERIFY"
intent_value extract = codes "EXTRACT"
intent_value transform = codes "TRANSFORM"
intent_value plan = codes "PLAN"
intent_value evaluate = codes "EVALUATE"
intent_value call_model = codes "CALL_MODEL"
intent_value call_tool = codes "CALL_TOOL"
intent_value read_memory = codes "READ_MEMORY"
intent_value write_memory = codes "WRITE_MEMORY"
intent_value delete_memory = codes "DELETE_MEMORY"
intent_value index_query = codes "INDEX_QUERY"
intent_value index_upsert = codes "INDEX_UPSERT"
intent_value route = codes "ROUTE"
intent_value filter_intent = codes "FILTER"
intent_value return_result = codes "RETURN_RESULT"
intent_value stream_result = codes "STREAM_RESULT"
intent_value cancel_intent = codes "CANCEL"

-- `ModelIntent(value)`, where `none` stands for ValueError.
unfoldable pub find_intent : Str → List ModelIntent → Option ModelIntent
find_intent s [] = none
find_intent s (i ∷ intents) =
    let rest = find_intent s intents in if same_list (intent_value i) s then some i else rest

unfoldable pub intent_of_text : Str → Option ModelIntent
unfolding find_intent
intent_of_text s = find_intent s all_intents

abbrev pub intent_of : Any → Option ModelIntent
intent_of (of_str s) = intent_of_text s
intent_of _ = none
