-- ===== src/Bin/Header.antt =====
-- aicl/bin/header.py, `validate_header` and `compute_crc32` of aicl/bin/validation.py, and the
-- constants of aicl/bin/constants.py that they use.
pub mod Layout
pub mod Valid
use aicl.Common.{
  Bool, [], if◌then◌else◌, leb, length, ltb, negsuc, pos, same_list, take, ℕ, ℤ, ◌%◌, ◌++◌, ◌==◌,
  ◌^◌, ◌∷◌,
}
use aicl.Py.Crc.{crc32}
use aicl.Py.Result.{
  Result, err, guard, header_error, ok, struct_error, version_mismatch, ◌>>=◌, ◌>>◌,
}
use aicl.Py.Struct.{Bytes, be, slice, unpack_at}

abbrev pub magic : Bytes
magic = 0x41 ∷ 0x49 ∷ 0x43 ∷ 0x4C ∷ []

abbrev pub header_size : ℕ
header_size = 56

abbrev pub header_crc_scope : ℕ
header_crc_scope = 52

abbrev pub current_version : ℕ
current_version = 0x0100

-- `version in SUPPORTED_VERSIONS`
abbrev pub is_supported : ℕ → Bool
is_supported version = version == 0x0100

abbrev pub max_payload : ℕ
max_payload = 0xFFFFFF

pub record Header : Type 0 where
  pub magic_bytes : Bytes
  pub version : ℕ
  pub flags : ℕ
  pub message_id : Bytes
  pub correlation_id : Bytes
  pub deadline_ms : ℕ
  pub payload_length : ℕ

unfoldable pub compute_crc32 : Bytes → ℕ
compute_crc32 bs = crc32 bs % 2 ^ 32

-- The 52 bytes that the header's CRC covers.
abbrev pub header_prefix : ℕ → ℕ → Bytes → Bytes → ℕ → ℕ → Bytes
header_prefix version flags message_id correlation_id deadline_ms payload_length =
    magic
    ++ (be 2 version
        ++ (be 2 flags
            ++ (message_id
                ++ (correlation_id
                    ++ (be 4 deadline_ms ++ (be 4 payload_length ++ (0 ∷ 0 ∷ 0 ∷ 0 ∷ [])))))))

-- `deadline_ms > 0xFFFFFFFF` raises HeaderError; a negative one fails in `struct.pack`.
pub check_deadline : ℤ → Result ℕ
check_deadline (pos n) = if ltb 0xFFFF_FFFF n then err header_error else ok n
check_deadline (negsuc n) = err struct_error

unfoldable pub pack_header : ℕ → ℕ → Bytes → Bytes → ℤ → ℕ → Result Bytes
unfolding check_deadline
pack_header version flags message_id correlation_id deadline payload_length = do
  guard (is_supported version) header_error
  guard (length message_id == 16) header_error
  guard (length correlation_id == 16) header_error
  guard (leb payload_length 0xFFFF_FFFF) header_error
  deadline_ms ← check_deadline deadline
  guard (ltb flags 0x10000) struct_error
  let prefix = header_prefix version flags message_id correlation_id deadline_ms payload_length
  ok (prefix ++ be 4 (compute_crc32 prefix))

unfoldable pub unpack_header : Bytes → Result Header
unpack_header src = do
  guard (leb header_size (length src)) header_error
  version ← unpack_at 2 4 src
  flags ← unpack_at 2 6 src
  deadline_ms ← unpack_at 4 40 src
  payload_length ← unpack_at 4 44 src
  guard (same_list (take 4 src) magic) header_error
  guard (is_supported version) header_error
  ok (record {
    magic_bytes = take 4 src;
    version = version;
    flags = flags;
    message_id = slice 8 16 src;
    correlation_id = slice 24 16 src;
    deadline_ms = deadline_ms;
    payload_length = payload_length;
  })

unfoldable pub validate_header : Bytes → Result (Unit {0})
validate_header src = do
  guard (leb header_size (length src)) header_error
  guard (same_list (take 4 src) magic) header_error
  version ← unpack_at 2 4 src
  guard (is_supported version) version_mismatch
  header_crc ← unpack_at 4 header_crc_scope src
  guard (header_crc == compute_crc32 (take header_crc_scope src)) header_error
  payload_length ← unpack_at 4 44 src
  guard (leb payload_length max_payload) header_error
