-- ===== src/Bin/Types.antt =====
-- aicl/bin/types.py: the records of a packet, and Identity's bytes.
pub mod Laws
use aicl.Common.{Option, [], false, leb, length, pos, take, ℕ, ℤ, ◌++◌, ◌+◌, ◌∷◌}
use aicl.Py.Ints.{pack_int, unpack_int}
use aicl.Py.Result.{Result, err, guard, ok, value_error, ◌>>=◌, ◌>>◌}
use aicl.Py.Struct.{Bytes, slice}
use aicl.Py.Utf8.{Str, utf8_decode, utf8_encode}

pub record Identity : Type 0 where
  pub id_type : ℤ
  pub name : Str
  pub instance_id : ℤ

pub record Qos : Type 0 where
  pub priority_class : ℤ
  pub reliability : ℤ
  pub ordering : ℤ
  pub delivery_mode : ℤ
  pub max_retries : ℤ
  pub retry_delay_ms : ℤ

pub record TraceEntry : Type 0 where
  pub actor_type : ℤ
  pub actor_name : Str
  pub action : Str
  pub timestamp_ms : ℤ
  pub duration_us : ℤ

pub record ChunkInfo : Type 0 where
  pub total_chunks : ℤ
  pub chunk_index : ℤ
  pub original_size : ℤ
  pub chunk_offset : ℤ
  pub chunk_size : ℤ

pub record ErrorInfo : Type 0 where
  pub error_code : ℤ
  pub severity : ℤ
  pub message : Str
  pub details : Option Str

pub record AckInfo : Type 0 where
  pub ack_type : Str
  pub message : Str

pub record BlobRef : Type 0 where
  pub ref_type : ℤ
  pub size : ℤ
  pub offset : ℤ
  pub identifier : Str

pub record Backpressure : Type 0 where
  pub queue_depth : ℤ
  pub max_queue : ℤ
  pub drop_reason : ℤ
  pub retry_after_ms : ℤ

pub record ToolInvocation : Type 0 where
  pub tool_name : Str
  pub parameters_json : Str
  pub timeout_ms : ℤ

pub record ModelInvocation : Type 0 where
  pub model_name : Str
  pub task : Str
  pub parameters_json : Str
  pub timeout_ms : ℤ

-- `struct.pack` of an unsigned length in `w` bytes.
abbrev pub pack_len : ℕ → ℕ → Result Bytes
pack_len w n = pack_int false w (pos n)

unfoldable pub identity_to_bytes : Identity → Result Bytes
identity_to_bytes i = do
  name_bytes ← utf8_encode i.name
  guard (leb (length name_bytes) 255) value_error
  kind ← pack_int false 1 i.id_type
  size ← pack_len 1 (length name_bytes)
  instance_bytes ← pack_int false 4 i.instance_id
  ok (kind ++ (size ++ (name_bytes ++ instance_bytes)))

unfoldable pub identity_from_bytes : Bytes → Result Identity
identity_from_bytes [] = err value_error
identity_from_bytes (kind ∷ []) = err value_error
identity_from_bytes (kind ∷ size ∷ src) = do
  guard (leb (size + 4) (length src)) value_error
  name ← utf8_decode (take size src)
  ok (record {
    id_type = pos kind;
    name = name;
    instance_id = unpack_int false 4 (slice size 4 src);
  })
