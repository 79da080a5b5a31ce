-- ===== src/Bin/Access/Infos.antt =====
-- aicl/bin/codec_view.py: the properties of PacketView from `backpressure` to `metadata`.
use aicl.Common.{
  List, Option, [], drop, false, if◌then◌else◌, leb, length, ltb, none, pos, same_list, some, suc,
  take, zero, ℕ, ℤ, ◌+◌, ◌==◌, ◌∷◌,
}
use aicl.Bin.Access.{byte_at, int_at, when_value, with_room}
use aicl.Bin.Types.{AckInfo, Backpressure, ErrorInfo, ModelInvocation, ToolInvocation}
use aicl.Bin.View.{Extensions, ext_one}
use aicl.Py.Result.{Result, err, map_ok, ok, out_of_fuel, ◌>>=◌}
use aicl.Py.Struct.{Bytes, slice, unpack_at}
use aicl.Py.Utf8.{Str, utf8_decode}

unfoldable pub read_backpressure : Bytes → Result Backpressure
read_backpressure v = do
  depth ← int_at false 4 0 v
  most ← int_at false 4 4 v
  reason ← int_at false 2 8 v
  retry ← int_at false 2 10 v
  ok (record {
    queue_depth = depth;
    max_queue = most;
    drop_reason = reason;
    retry_after_ms = retry;
  })

unfoldable pub view_backpressure : Extensions → Result (Option Backpressure)
view_backpressure es = with_room 12 (ext_one 0x8D es) read_backpressure

-- The part of `error_info` behind the two codes: the message, and the details or None.
unfoldable pub read_error_texts : ℕ → Bytes → Result (Str × Option Str)
read_error_texts ml v = do
  message ← utf8_decode (slice 5 ml v)
  dl ← (if leb (5 + ml + 2) (length v) then unpack_at 2 (5 + ml) v else ok 0)
  details ← (if dl == 0 then ok none else map_ok some (utf8_decode (slice (5 + ml + 2) dl v)))
  ok (message, details)

unfoldable pub read_error : Bytes → Result (Option ErrorInfo)
unfolding read_error_texts
read_error v = do
  code ← int_at false 2 0 v
  severity ← int_at false 2 2 v
  ml ← byte_at 4 v
  let whole =
      map_ok
        (λ texts.
          some (record {
            error_code = code;
            severity = severity;
            message = texts.0;
            details = texts.1;
          }))
        (read_error_texts ml v)
  if ltb (length v) (5 + ml) then ok none else whole

unfoldable pub view_error_info : Extensions → Result (Option ErrorInfo)
view_error_info es =
    when_value (ext_one 0x8E es) none (λ v. if ltb (length v) 7 then ok none else read_error v)

-- `AckInfo(v[1:].decode())`: the text goes to the first field.
unfoldable pub view_ack_info : Extensions → Result (Option AckInfo)
view_ack_info es =
    when_value (ext_one 0x8F es) none (λ v.
      map_ok (λ text. some (record { ack_type = text; message = [] })) (utf8_decode (drop 1 v)))

-- `struct.unpack_from(">I", v, off)[0] if off + 4 <= len(v) else 0`
abbrev pub timeout_at : ℕ → Bytes → Result ℤ
timeout_at off v = if leb (off + 4) (length v) then int_at false 4 off v else ok (pos 0)

unfoldable pub read_model : Bytes → Result ModelInvocation
read_model v = do
  nl ← byte_at 0 v
  tl ← byte_at 1 v
  pl ← byte_at 2 v
  model_name ← utf8_decode (slice 3 nl v)
  task ← utf8_decode (slice (3 + nl) tl v)
  parameters ← utf8_decode (slice (3 + nl + tl) pl v)
  timeout ← timeout_at (3 + nl + tl + pl) v
  ok (record {
    model_name = model_name;
    task = task;
    parameters_json = parameters;
    timeout_ms = timeout;
  })

unfoldable pub view_model_invocation : Extensions → Result (Option ModelInvocation)
view_model_invocation es = with_room 3 (ext_one 0x94 es) read_model

unfoldable pub read_tool : Bytes → Result ToolInvocation
read_tool v = do
  nl ← byte_at 0 v
  pl ← byte_at 1 v
  tool_name ← utf8_decode (slice 2 nl v)
  parameters ← utf8_decode (slice (2 + nl) pl v)
  timeout ← timeout_at (2 + nl + pl) v
  ok (record { tool_name = tool_name; parameters_json = parameters; timeout_ms = timeout })

unfoldable pub view_tool_invocation : Extensions → Result (Option ToolInvocation)
view_tool_invocation es = with_room 2 (ext_one 0x95 es) read_tool

-- `result[k] = v` on a dict of texts.
unfoldable pub text_set : List (Str × Str) → Str → Str → List (Str × Str)
text_set [] k v = (k, v) ∷ []
text_set ((j, w) ∷ d) k v =
    let rest = text_set d k v in if same_list j k then (j, v) ∷ d else (j, w) ∷ rest

-- The value of an entry with its key.
read_value : Str → ℕ → Bytes → Result (Option (Str × Str × Bytes))
read_value k vl src =
    if ltb (length src) vl
    then ok none
    else map_ok (λ v. some (k, v, drop vl src)) (utf8_decode (take vl src))

-- One round of the loop of `metadata` behind the key's length: `none` for a `break`.
unfoldable pub read_entry : ℕ → Bytes → Result (Option (Str × Str × Bytes))
unfolding read_value
read_entry kl src =
    let entry_of = (do
      k ← utf8_decode (take kl src)
      vl ← unpack_at 2 kl src
      read_value k vl (drop (kl + 2) src)) in
    if ltb (length src) kl then ok none else entry_of

-- The loop, on the bytes from `pos` on.
unfoldable pub read_metadata : ℕ → Bytes → List (Str × Str) → Result (List (Str × Str))
unfolding read_entry
read_metadata fuel [] d = ok d
read_metadata zero (kl ∷ src) d = err out_of_fuel
read_metadata (suc fuel) (kl ∷ src) d = read_entry kl src >>= λ e. elim e [
  | none ↦ ok d
  | some (k, v, rest) ↦ read_metadata fuel rest (text_set d k v)
]

unfoldable pub view_metadata : Extensions → Result (List (Str × Str))
unfolding read_metadata text_set
view_metadata es = when_value (ext_one 0x96 es) [] (λ v. read_metadata (length v) v [])
