-- ===== src/Bin/Packet.antt =====
-- aicl/bin/codec_packet.py and aicl/bin/extension_tags.py: a packet and the payload that it builds.
pub mod Fields
use aicl.Common.{
  List, Option, [], bit_and, false, if◌then◌else◌, length, map, negsuc, none, pos, replicate,
  reverse, some, true, ℕ, ℤ, ◌++◌, ◌==◌, ◌∷◌,
}
use aicl.Bin.Operands.{encode_symbol}
use aicl.Bin.Symbol.{Symbol, bytes, symbol}
use aicl.Bin.Types.{
  AckInfo, Backpressure, BlobRef, ChunkInfo, ErrorInfo, Identity, ModelInvocation, Qos,
  ToolInvocation, TraceEntry, identity_to_bytes, pack_len,
}
use aicl.Bin.Varint.{encode_varint}
use aicl.Py.Float.{one_bits}
use aicl.Py.Ints.{pack_int}
use aicl.Py.Result.{Result, encode_error, guard, map_ok, ok, ◌>>=◌, ◌>>◌}
use aicl.Py.Struct.{Bytes, be}
use aicl.Py.Utf8.{Str, utf8_encode}

-- `metadata` maps `str` to `str` here; other values reach the wire through `str(v)`.
pub record Packet : Type 0 where
  pub version : ℕ
  pub flags : ℕ
  pub session_id : Bytes
  pub message_id : Bytes
  pub correlation_id : Bytes
  pub origin : Option Identity
  pub targets : List Str
  pub operation : ℕ
  pub intent : Str
  pub symbols : List Symbol
  pub response_symbols : List Symbol
  pub confidence : ℕ
  pub priority : ℤ
  pub deadline_ms : ℤ
  pub capabilities : List Str
  pub qos : Option Qos
  pub security : Option Bytes
  pub trace : List TraceEntry
  pub chunk_info : Option ChunkInfo
  pub blob_refs : List BlobRef
  pub backpressure : Option Backpressure
  pub error_info : Option ErrorInfo
  pub ack_info : Option AckInfo
  pub target_caps : List Str
  pub schema_id : Str
  pub stream_id : Option Bytes
  pub partial_result : Option Bytes
  pub model_invocation : Option ModelInvocation
  pub tool_invocation : Option ToolInvocation
  pub metadata : List (Str × Str)

-- `__post_init__` on the three ids: the defaults (two fresh `uuid4().bytes` and sixteen zeros), then
-- the length check.
default_id : Option Bytes → Bytes → Bytes
default_id none fresh = fresh
default_id (some b) fresh = b

unfoldable pub post_init :
    Bytes → Bytes → Option Bytes → Option Bytes → Option Bytes → Result (Bytes × Bytes × Bytes)
unfolding default_id
post_init uuid_s uuid_m session message correlation = do
  let s = default_id session uuid_s
  let m = default_id message uuid_m
  let c = default_id correlation (replicate 16 0)
  guard (length s == 16) encode_error
  guard (length m == 16) encode_error
  guard (length c == 16) encode_error
  ok (s, m, c)

-- The extensions that one statement of `_append_extensions` may add: a tag, and the computation of
-- the bytes of each.
abbrev pub Field : Type 0
Field = ℕ × List (Result Bytes)

-- `if value:` of a list, a text, bytes, and of an optional value.
abbrev pub when_any : {A : Type 0} → List A → Result Bytes → List (Result Bytes)
when_any [] r = []
when_any (x ∷ xs) r = r ∷ []

abbrev pub when_some : {A : Type 0} → Option A → (A → Result Bytes) → List (Result Bytes)
when_some none f = []
when_some (some a) f = f a ∷ []

abbrev pub when_bytes : Option Bytes → List (Result Bytes)
when_bytes none = []
when_bytes (some b) = when_any b (ok b)

-- `b",".join(t.encode() for t in texts)`
unfoldable pub join_texts : List Str → Result Bytes
join_texts [] = ok []
join_texts (t ∷ []) = utf8_encode t
join_texts (t ∷ ts) = do here ← utf8_encode t; there ← join_texts ts; ok (here ++ (0x2C ∷ there))

unfoldable pub encode_symbols : List Symbol → Result Bytes
encode_symbols [] = ok []
encode_symbols (s ∷ ss) = do here ← encode_symbol s; there ← encode_symbols ss; ok (here ++ there)

unfoldable pub pack_qos : Qos → Result Bytes
pack_qos q = do
  a ← pack_int false 1 q.priority_class
  b ← pack_int false 1 q.reliability
  c ← pack_int false 1 q.ordering
  d ← pack_int false 1 q.delivery_mode
  e ← pack_int false 4 q.max_retries
  f ← pack_int false 4 q.retry_delay_ms
  ok (a ++ (b ++ (c ++ (d ++ (e ++ f)))))

unfoldable pub pack_trace : TraceEntry → Result Bytes
pack_trace e = do
  an ← utf8_encode e.actor_name
  ac ← utf8_encode e.action
  kind ← pack_int false 1 e.actor_type
  nl ← pack_len 1 (length an)
  al ← pack_len 1 (length ac)
  ts ← pack_int true 8 e.timestamp_ms
  dur ← pack_int true 4 e.duration_us
  ok (kind ++ (nl ++ (al ++ (an ++ (ac ++ (ts ++ dur))))))

unfoldable pub pack_chunk : ChunkInfo → Result Bytes
pack_chunk c = do
  total ← pack_int false 1 c.total_chunks
  index ← pack_int false 1 c.chunk_index
  original ← pack_int false 4 c.original_size
  offset ← pack_int false 4 c.chunk_offset
  size ← pack_int false 4 c.chunk_size
  ok (total ++ (index ++ (original ++ (offset ++ size))))

-- The format "BBI" has no byte-order mark: native alignment puts two zero bytes before the number,
-- and native order on the common machines is little-endian.
unfoldable pub pack_blob : BlobRef → Result Bytes
pack_blob br = do
  ib ← utf8_encode br.identifier
  kind ← pack_int false 1 br.ref_type
  il ← pack_len 1 (length ib)
  size ← pack_int false 4 br.size
  offset ← pack_int false 4 br.offset
  ok (kind ++ (il ++ (0 ∷ 0 ∷ (reverse size ++ (offset ++ ib)))))

unfoldable pub pack_backpressure : Backpressure → Result Bytes
pack_backpressure bp = do
  depth ← pack_int false 4 bp.queue_depth
  most ← pack_int false 4 bp.max_queue
  reason ← pack_int false 2 bp.drop_reason
  retry ← pack_int false 2 bp.retry_after_ms
  ok (depth ++ (most ++ (reason ++ retry)))

-- `details or ""`
abbrev pub or_empty : Option Str → Str
or_empty none = []
or_empty (some s) = s

unfoldable pub pack_error : ErrorInfo → Result Bytes
pack_error e = do
  mb ← utf8_encode e.message
  db ← utf8_encode (or_empty e.details)
  code ← pack_int false 2 e.error_code
  severity ← pack_int false 2 e.severity
  ml ← pack_len 1 (length mb)
  dl ← pack_len 2 (length db)
  ok (code ++ (severity ++ (ml ++ (mb ++ (dl ++ db)))))

unfoldable pub pack_ack : AckInfo → Result Bytes
pack_ack a = map_ok (λ b. 0 ∷ b) (utf8_encode a.message)

unfoldable pub pack_model : ModelInvocation → Result Bytes
pack_model m = do
  nb ← utf8_encode m.model_name
  tb ← utf8_encode m.task
  pb ← utf8_encode m.parameters_json
  nl ← pack_len 1 (length nb)
  tl ← pack_len 1 (length tb)
  pl ← pack_len 1 (length pb)
  timeout ← pack_int false 4 m.timeout_ms
  ok (nl ++ (tl ++ (pl ++ (nb ++ (tb ++ (pb ++ timeout))))))

unfoldable pub pack_tool : ToolInvocation → Result Bytes
pack_tool t = do
  nb ← utf8_encode t.tool_name
  pb ← utf8_encode t.parameters_json
  nl ← pack_len 1 (length nb)
  pl ← pack_len 1 (length pb)
  timeout ← pack_int false 4 t.timeout_ms
  ok (nl ++ (pl ++ (nb ++ (pb ++ timeout))))

unfoldable pub pack_metadata : List (Str × Str) → Result Bytes
pack_metadata [] = ok []
pack_metadata ((k, v) ∷ m) = do
  kb ← utf8_encode k
  vb ← utf8_encode v
  kl ← pack_len 1 (length kb)
  vl ← pack_len 2 (length vb)
  there ← pack_metadata m
  ok (kl ++ (kb ++ (vl ++ (vb ++ there))))

-- `confidence != 1.0`: one bit pattern alone stands for 1.0.
abbrev pub when_confidence : ℕ → List (Result Bytes)
when_confidence c = if c == one_bits then [] else ok (be 8 c) ∷ []

abbrev pub when_priority : ℤ → List (Result Bytes)
when_priority (pos n) = if n == 128 then [] else pack_int false 1 (pos n) ∷ []
when_priority (negsuc n) = pack_int false 1 (negsuc n) ∷ []

-- The statements of `_append_extensions`, in order.
unfoldable pub extension_fields : Packet → List Field
extension_fields p =
    (0x80, when_any p.session_id (ok p.session_id))
    ∷ (0x81, when_some p.origin identity_to_bytes)
    ∷ (0x82, when_any p.targets (join_texts p.targets))
    ∷ (0x83, when_any p.intent (utf8_encode p.intent))
    ∷ (0x84, when_any p.response_symbols (encode_symbols p.response_symbols))
    ∷ (0x85, when_confidence p.confidence)
    ∷ (0x86, when_priority p.priority)
    ∷ (0x87, when_any p.capabilities (join_texts p.capabilities))
    ∷ (0x88, when_some p.qos pack_qos)
    ∷ (0x89, when_bytes p.security)
    ∷ (0x8A, map pack_trace p.trace)
    ∷ (0x8B, when_some p.chunk_info pack_chunk)
    ∷ (0x8C, map pack_blob p.blob_refs)
    ∷ (0x8D, when_some p.backpressure pack_backpressure)
    ∷ (0x8E, when_some p.error_info pack_error)
    ∷ (0x8F, when_some p.ack_info pack_ack)
    ∷ (0x90, when_any p.target_caps (join_texts p.target_caps))
    ∷ (0x91, when_any p.schema_id (utf8_encode p.schema_id))
    ∷ (0x92, when_bytes p.stream_id)
    ∷ (0x93, when_bytes p.partial_result)
    ∷ (0x94, when_some p.model_invocation pack_model)
    ∷ (0x95, when_some p.tool_invocation pack_tool)
    ∷ (0x96, when_any p.metadata (pack_metadata p.metadata))
    ∷ []

-- `ext(tag, raw)` for each value of one statement, and for all statements.
unfoldable pub run_field : ℕ → List (Result Bytes) → Result (List Symbol)
run_field tag [] = ok []
run_field tag (r ∷ rs) = do b ← r; rest ← run_field tag rs; ok (symbol tag (bytes b) ∷ rest)

unfoldable pub run_fields : List Field → Result (List Symbol)
unfolding run_field
run_fields [] = ok []
run_fields ((tag, rs) ∷ fs) = do here ← run_field tag rs; there ← run_fields fs; ok (here ++ there)

unfoldable pub append_extensions : Packet → Result (List Symbol)
unfolding extension_fields run_fields
append_extensions p =
    map_ok (λ extensions. p.symbols ++ extensions) (run_fields (extension_fields p))

unfoldable pub build_payload : Packet → Result Bytes
unfolding encode_symbols
build_payload p = do
  operands ← append_extensions p
  count ← encode_varint (pos (length operands))
  body ← encode_symbols operands
  ok (bit_and p.operation 0xFF ∷ (count ++ body))
