-- ===== src/Semantic/Adapter/Text.antt =====
-- aicl/semantic/adapter.py: `action_to_sl`, the text of an action for debugging. The clock is an
-- argument.
use aicl.Common.{List, [], if◌then◌else◌, map, same_list, take, ℕ, ◌++◌, ◌==◌, ◌∷◌}
use aicl.Py.Any.{
  Any, Dict, codes, dict_get, get_or, key, no_keys, of_bool, of_dict, of_float, of_int, of_none,
  of_str, truthy,
}
use aicl.Py.Decimal.{show_number}
use aicl.Py.Json.Dump.{dumps}
use aicl.Py.Show.{show_float, str_of}
use aicl.Py.Struct.{Bytes}
use aicl.Py.Utf8.{Str}
use aicl.Py.Uuid.{hex}
use aicl.Semantic.Adapter.{Action, SemanticAdapter, spaced, targets_of}
use aicl.Semantic.Intents.{
  ModelIntent, call_model, call_tool, cancel_intent, classify, delete_memory, embed, evaluate,
  extract, filter_intent, generate, index_query, index_upsert, intent_value, plan, rank,
  read_memory, reason, return_result, route, stream_result, summarize, synthesize, transform,
  verify, write_memory,
}

-- The operator codes.
abbrev pub sl_operator : ModelIntent → Str
sl_operator classify = codes "CLS"
sl_operator generate = codes "GEN"
sl_operator reason = codes "RSN"
sl_operator embed = codes "EMB"
sl_operator rank = codes "RNK"
sl_operator summarize = codes "SUM"
sl_operator synthesize = codes "SYN"
sl_operator verify = codes "VRF"
sl_operator extract = codes "XTR"
sl_operator transform = codes "TRN"
sl_operator plan = codes "PLN"
sl_operator evaluate = codes "EVL"
sl_operator call_model = codes "EXE_MODEL"
sl_operator call_tool = codes "EXE_TOOL"
sl_operator read_memory = codes "MEM_READ"
sl_operator write_memory = codes "MEM_WRITE"
sl_operator delete_memory = codes "MEM_DELETE"
sl_operator index_query = codes "IDX_QUERY"
sl_operator index_upsert = codes "IDX_UPSERT"
sl_operator route = codes "RTE"
sl_operator filter_intent = codes "FLT"
sl_operator return_result = codes "RES"
sl_operator stream_result = codes "GEN"
sl_operator cancel_intent = codes "CANCEL"

-- `sep.join(parts)`
unfoldable pub join_with : Str → List Str → Str
join_with sep [] = []
join_with sep (s ∷ []) = s
join_with sep (s ∷ t ∷ parts) = let rest = join_with sep (t ∷ parts) in s ++ (sep ++ rest)

-- The pairs of `_build_sl_symbols`, whose prefixes are S, N and J.
pub data SlSymbol : Type 0 where
  sl_text : Any → SlSymbol
  sl_number : Any → SlSymbol
  sl_json : Dict → SlSymbol

-- A bool is an int to `isinstance`; None and lists are passed over.
abbrev pub sl_input : Any → List SlSymbol
sl_input (of_str s) = sl_text (of_str s) ∷ []
sl_input (of_bool b) = sl_number (of_bool b) ∷ []
sl_input (of_int z) = sl_number (of_int z) ∷ []
sl_input (of_float d) = sl_number (of_float d) ∷ []
sl_input (of_dict d) = sl_json d ∷ []
sl_input _ = []

unfoldable pub other_sl_symbols : Dict → List SlSymbol
other_sl_symbols no_keys = []
other_sl_symbols (key k v d) =
    let rest = other_sl_symbols d in if same_list k (codes "text") then rest else sl_input v ++ rest

-- `_build_sl_symbols`
unfoldable pub build_sl_symbols : Action → List SlSymbol
unfolding other_sl_symbols
build_sl_symbols a =
    let text = get_or (dict_get a.inputs (codes "text")) of_none in
    (if truthy text then sl_text text ∷ [] else [])
    ++ (other_sl_symbols a.inputs
        ++ (if truthy (of_dict a.result) then sl_json a.result ∷ [] else []))

-- A quote gets a backslash before it.
unfoldable pub escape_quotes : Str → Str
escape_quotes [] = []
escape_quotes (c ∷ s) =
    let rest = escape_quotes s in if c == 0x22 then 0x5C ∷ c ∷ rest else c ∷ rest

module _ (float_repr : ℕ → Str) (text_repr : Str → Str) where
  abbrev pub encode_sl : SlSymbol → Str
  encode_sl (sl_text v) =
      codes "S:\"" ++ (escape_quotes (str_of float_repr text_repr v) ++ codes "\"")
  encode_sl (sl_number v) = codes "N:" ++ str_of float_repr text_repr v
  encode_sl (sl_json d) = codes "J:" ++ dumps float_repr spaced (of_dict d)

  abbrev pub sl_part : List SlSymbol → List Str
  sl_part [] = []
  sl_part (s ∷ ss) = (codes "SYM:" ++ join_with (codes ",") (map encode_sl (s ∷ ss))) ∷ []

  unfoldable pub sl_metadata : Dict → List Str
  sl_metadata no_keys = []
  sl_metadata (key k v d) = (k ++ (codes "=" ++ str_of float_repr text_repr v)) ∷ sl_metadata d

  -- `action_to_sl`, with the time in milliseconds and the bytes of a fresh `uuid4`.
  unfoldable pub action_to_sl : SemanticAdapter → ℕ → Bytes → Action → Str
  unfolding build_sl_symbols join_with sl_metadata
  action_to_sl adapter millis fresh a = join_with (codes "|") (
      codes "AICL/1.0"
      ∷ (codes "SID:s-" ++ (show_number millis ++ (0x2D ∷ take 8 (hex fresh))))
      ∷ (codes "ORI:" ++ adapter.origin)
      ∷ (map (λ t. codes "TGT:" ++ t) (targets_of a.target)
          ++ ((codes "OP:" ++ sl_operator a.intent)
              ∷ (sl_part (build_sl_symbols a)
                  ++ ((codes "CNF:" ++ show_float float_repr text_repr a.confidence)
                      ∷ (codes "META:"
                          ++ join_with (codes ";") (
                              sl_metadata a.metadata
                              ++ ((codes "semantic_intent=" ++ intent_value a.intent) ∷ [])))
                      ∷ [])))))
