-- ===== src/Semantic/Adapter.antt =====
-- aicl/semantic/adapter.py: from an action to a packet and its bytes. The fields of an action have
-- their annotated types here. What `uuid4` returns is an argument, and so are the digits that Python
-- prints for a float, and the `repr` of a text, which stands inside the text of a list or a dict.
pub mod Inbound
pub mod Sent
pub mod Arrival
pub mod Results
pub mod Output
pub mod Parsed
pub mod Text
use aicl.Common.{
  Bool, List, Option, [], false, if◌then◌else◌, none, pos, replicate, same_list, some, true, ℕ, ℤ,
  ◌++◌, ◌∷◌,
}
use aicl.Bin.Codec.{encode}
use aicl.Bin.Packet.{Packet, post_init}
use aicl.Bin.Symbol.{Symbol, Symbols, bool, cons, float, int, items, nil, nothing, str, symbol}
use aicl.Bin.Types.{Identity, ModelInvocation, ToolInvocation}
use aicl.Bin.View.{PacketView}
use aicl.Py.Any.{
  Any, Anys, Dict, codes, dict_get, dict_update, get_or, item, key, no_items, no_keys, of_bool,
  of_dict, of_float, of_int, of_list, of_none, of_str, truthy,
}
use aicl.Py.Json.Dump.{Style, dumps}
use aicl.Py.Result.{
  Result, attribute_error, err, guard, ok, semantic_error, struct_error, ◌>>=◌, ◌>>◌,
}
use aicl.Py.Show.{str_of}
use aicl.Py.Struct.{Bytes}
use aicl.Py.Utf8.{Str}
use aicl.Py.Uuid.{uuid_bytes}
use aicl.Semantic.Action.{ModelAction, is_nil, validate}
use aicl.Semantic.Intents.{
  ModelIntent, call_model, call_tool, intent_to_opcode, intent_value, reason,
}
use aicl.Semantic.Wire.{set_flag}

-- An action whose fields have their annotated types.
pub record Action : Type 0 where
  pub intent : ModelIntent
  pub target : Str
  pub inputs : Dict
  pub params : Dict
  pub result : Dict
  pub confidence : ℕ
  pub stream : Bool
  pub cancel : Bool
  pub correlation_id : Str
  pub deadline_ms : ℤ
  pub metadata : Dict

abbrev pub model_action : Action → ModelAction
model_action a = record {
  intent = a.intent;
  target = of_str a.target;
  inputs = of_dict a.inputs;
  params = of_dict a.params;
  result = of_dict a.result;
  confidence = of_float a.confidence;
  stream = of_bool a.stream;
  cancel = of_bool a.cancel;
  correlation_id = of_str a.correlation_id;
  deadline_ms = of_int a.deadline_ms;
  metadata = of_dict a.metadata;
}

-- The audit entry, which nothing reads, is left out.
pub record GateResult : Type 0 where
  pub allowed : Bool
  pub reason : Str

-- A gate answers for an action that goes out and for a packet that comes in.
pub record GateCheck : Type 0 where
  pub check_outbound : ModelAction → GateResult
  pub check_inbound : PacketView → GateResult

-- The default gate, `GateCheck` itself and `_AllowAllGate`.
abbrev pub allow_all : GateCheck
allow_all = record {
  check_outbound = λ a. record { allowed = true; reason = [] };
  check_inbound = λ v. record { allowed = true; reason = [] };
}

pub record SemanticAdapter : Type 0 where
  pub origin : Str
  pub gate : GateCheck
  pub identity_type : ℤ
  pub session_counter : ℕ

abbrev pub gate_or_default : Option GateCheck → GateCheck
gate_or_default none = allow_all
gate_or_default (some gate) = gate

abbrev pub new_adapter : Str → Option GateCheck → ℤ → SemanticAdapter
new_adapter origin gate identity_type = record {
  origin = origin;
  gate = gate_or_default gate;
  identity_type = identity_type;
  session_counter = 0;
}

abbrev pub set_gate : GateCheck → SemanticAdapter → SemanticAdapter
set_gate gate adapter = record adapter { gate = gate }

-- `separators=(",", ":")`, and the default of `json.dumps`, both in ASCII.
abbrev pub tight : Style
tight = record { item_separator = codes ","; key_separator = codes ":"; ensure_ascii = true }

abbrev pub spaced : Style
spaced = record { item_separator = codes ", "; key_separator = codes ": "; ensure_ascii = true }

abbrev pub zeros_or_uuid : Str → Result Bytes
zeros_or_uuid [] = ok (replicate 16 0)
zeros_or_uuid (c ∷ s) = uuid_bytes (c ∷ s)

-- `if test: flags |= f`, on the flag of a request.
abbrev pub packet_flags : Bool → Bool → ℕ
packet_flags stream cancel = set_flag cancel 0x0020 (set_flag stream 0x0080 0x0001)

abbrev pub targets_of : Str → List Str
targets_of [] = []
targets_of (c ∷ s) = (c ∷ s) ∷ []

-- A packet has no place for a name or a task that is not a text, which `encode` refuses later; here
-- it is refused at once.
abbrev pub as_text : Any → Result Str
as_text (of_str s) = ok s
as_text _ = err attribute_error

-- The same for a time limit that `struct` does not take as an integer.
abbrev pub as_int : Any → Result ℤ
as_int (of_int z) = ok z
as_int (of_bool true) = ok (pos 1)
as_int (of_bool false) = ok (pos 0)
as_int _ = err struct_error

-- The packet of the keyword arguments that the adapter gives, the others at their defaults.
abbrev pub base_packet :
    ℕ → Bytes × Bytes × Bytes → Identity → ℕ → Str → List Symbol → ℕ → List (Str × Str) → Packet
base_packet flags (session, message, correlation) origin operation intent symbols confidence
      metadata =
    record {
      version = 0x0100;
      flags = flags;
      session_id = session;
      message_id = message;
      correlation_id = correlation;
      origin = some origin;
      targets = [];
      operation = operation;
      intent = intent;
      symbols = symbols;
      response_symbols = [];
      confidence = confidence;
      priority = pos 128;
      deadline_ms = pos 0;
      capabilities = [];
      qos = none;
      security = none;
      trace = [];
      chunk_info = none;
      blob_refs = [];
      backpressure = none;
      error_info = none;
      ack_info = none;
      target_caps = [];
      schema_id = [];
      stream_id = none;
      partial_result = none;
      model_invocation = none;
      tool_invocation = none;
      metadata = metadata;
    }

module _ (float_repr : ℕ → Str) (text_repr : Str → Str) where
  -- `_to_binary_symbol`
  unfoldable mutual
    pub to_binary_symbol : Any → Symbol
    to_binary_symbol (of_str s) = symbol 0x11 (str s)
    to_binary_symbol (of_bool b) = symbol 0x10 (bool b)
    to_binary_symbol (of_int z) = symbol 0x04 (int z)
    to_binary_symbol (of_float d) = symbol 0x0A (float d)
    to_binary_symbol (of_list vs) = symbol 0x17 (items (to_binary_symbols vs))
    to_binary_symbol (of_dict d) = symbol 0x11 (str (dumps float_repr tight (of_dict d)))
    to_binary_symbol of_none = symbol 0x19 nothing

    pub to_binary_symbols : Anys → Symbols
    to_binary_symbols no_items = nil
    to_binary_symbols (item v vs) = cons (to_binary_symbol v) (to_binary_symbols vs)

  -- The loop over the inputs, without the key "text".
  unfoldable pub other_symbols : Dict → List Symbol
  other_symbols no_keys = []
  other_symbols (key k v d) =
      let rest = other_symbols d in
      if same_list k (codes "text") then rest else to_binary_symbol v ∷ rest

  abbrev pub symbol_if : Any → List Symbol
  symbol_if v = if truthy v then to_binary_symbol v ∷ [] else []

  -- `_build_symbols`
  unfoldable pub build_symbols : Action → List Symbol
  unfolding other_symbols
  build_symbols a =
      symbol_if (get_or (dict_get a.inputs (codes "text")) of_none)
      ++ (other_symbols a.inputs ++ (symbol_if (of_dict a.params) ++ symbol_if (of_dict a.result)))

  -- The invocation of a tool, if the action names one.
  abbrev pub tool_of : ModelIntent → Dict → Result (Option ToolInvocation)
  tool_of call_tool params =
      let name = get_or (dict_get params (codes "tool_name")) of_none in
      let limit = get_or (dict_get params (codes "timeout_ms")) (of_int (pos 5000)) in
      let arguments = get_or (dict_get params (codes "parameters")) (of_dict no_keys) in
      if truthy name
      then (do
        tool_name ← as_text name
        timeout ← as_int limit
        ok (
            some (record {
              tool_name = tool_name;
              parameters_json = dumps float_repr spaced arguments;
              timeout_ms = timeout;
            })))
      else ok none
  tool_of _ params = ok none

  -- The invocation of a model, if the action has a target.
  abbrev pub model_of : ModelIntent → Str → Dict → Result (Option ModelInvocation)
  model_of call_model (c ∷ target) params = do
    task ← as_text (get_or (dict_get params (codes "task")) (of_str (codes "CALL_MODEL")))
    timeout ← as_int (get_or (dict_get params (codes "timeout_ms")) (of_int (pos 5000)))
    ok (
        some (record {
          model_name = c ∷ target;
          task = task;
          parameters_json = dumps float_repr spaced (of_dict params);
          timeout_ms = timeout;
        }))
  model_of _ target params = ok none

  -- The metadata in texts, as `encode` writes them.
  unfoldable pub texts_of : Dict → List (Str × Str)
  texts_of no_keys = []
  texts_of (key k v d) = (k, str_of float_repr text_repr v) ∷ texts_of d

  abbrev pub with_intent : ModelIntent → Dict → List (Str × Str)
  with_intent intent d =
      texts_of
        (dict_update (key (codes "semantic_intent") (of_str (intent_value intent)) no_keys) d)

  -- `action_to_packet`, with the two fresh ids.
  unfoldable pub action_to_packet : SemanticAdapter → Bytes → Bytes → Action → Result Packet
  unfolding build_symbols texts_of
  action_to_packet adapter session message a = do
    errors ← validate (model_action a)
    guard (is_nil errors) semantic_error
    guard (adapter.gate.check_outbound (model_action a)).allowed semantic_error
    correlation ← zeros_or_uuid a.correlation_id
    three ← post_init session message (some session) (some message) (some correlation)
    tool ← tool_of a.intent a.params
    model ← model_of a.intent a.target a.params
    ok
        (record (base_packet (packet_flags a.stream a.cancel) three
          (record { id_type = adapter.identity_type; name = adapter.origin; instance_id = pos 0 })
          (intent_to_opcode a.intent) (intent_value a.intent) (build_symbols a) a.confidence
          (with_intent a.intent a.metadata)) {
            targets = targets_of a.target;
            deadline_ms = a.deadline_ms;
            tool_invocation = tool;
            model_invocation = model;
          })

  -- `action_to_bytes`
  unfoldable pub action_to_bytes : SemanticAdapter → Bytes → Bytes → Action → Bool → Result Bytes
  unfolding action_to_packet
  action_to_bytes adapter session message a checksum =
      action_to_packet adapter session message a >>= λ p. encode p checksum
