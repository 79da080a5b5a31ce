-- ===== src/Semantic/Intents/Codes.antt =====
-- aicl/semantic: what the codes of the intents keep.
use mathlib.Core.Option
use aicl.Common.{refl, some, ◌≡◌}
use aicl.Py.Any.{of_str}
use aicl.Semantic.Intents.{
  ModelIntent, byte_to_intent, call_model, call_tool, cancel_intent, classify, delete_memory, embed,
  evaluate, extract, filter_intent, find_intent, generate, index_query, index_upsert, intent_byte,
  intent_of, intent_of_text, intent_value, last_with, plan, rank, read_memory, reason,
  return_result, route, stream_result, summarize, synthesize, transform, verify, write_memory,
}

-- The byte of an intent is read as that intent.
pub byte_to_intent-intent_byte : (i : ModelIntent) → byte_to_intent (intent_byte i) ≡ some i
unfolding byte_to_intent last_with
byte_to_intent-intent_byte classify = refl
byte_to_intent-intent_byte generate = refl
byte_to_intent-intent_byte reason = refl
byte_to_intent-intent_byte embed = refl
byte_to_intent-intent_byte rank = refl
byte_to_intent-intent_byte summarize = refl
byte_to_intent-intent_byte synthesize = refl
byte_to_intent-intent_byte verify = refl
byte_to_intent-intent_byte extract = refl
byte_to_intent-intent_byte transform = refl
byte_to_intent-intent_byte plan = refl
byte_to_intent-intent_byte evaluate = refl
byte_to_intent-intent_byte call_model = refl
byte_to_intent-intent_byte call_tool = refl
byte_to_intent-intent_byte read_memory = refl
byte_to_intent-intent_byte write_memory = refl
byte_to_intent-intent_byte delete_memory = refl
byte_to_intent-intent_byte index_query = refl
byte_to_intent-intent_byte index_upsert = refl
byte_to_intent-intent_byte route = refl
byte_to_intent-intent_byte filter_intent = refl
byte_to_intent-intent_byte return_result = refl
byte_to_intent-intent_byte stream_result = refl
byte_to_intent-intent_byte cancel_intent = refl

-- The value of an intent names it.
pub intent_of-intent_value : (i : ModelIntent) → intent_of (of_str (intent_value i)) ≡ some i
unfolding find_intent intent_of_text
intent_of-intent_value classify = refl
intent_of-intent_value generate = refl
intent_of-intent_value reason = refl
intent_of-intent_value embed = refl
intent_of-intent_value rank = refl
intent_of-intent_value summarize = refl
intent_of-intent_value synthesize = refl
intent_of-intent_value verify = refl
intent_of-intent_value extract = refl
intent_of-intent_value transform = refl
intent_of-intent_value plan = refl
intent_of-intent_value evaluate = refl
intent_of-intent_value call_model = refl
intent_of-intent_value call_tool = refl
intent_of-intent_value read_memory = refl
intent_of-intent_value write_memory = refl
intent_of-intent_value delete_memory = refl
intent_of-intent_value index_query = refl
intent_of-intent_value index_upsert = refl
intent_of-intent_value route = refl
intent_of-intent_value filter_intent = refl
intent_of-intent_value return_result = refl
intent_of-intent_value stream_result = refl
intent_of-intent_value cancel_intent = refl
