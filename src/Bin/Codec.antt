-- ===== src/Bin/Codec.antt =====
-- aicl/bin/codec_api.py: `encode` and `decode` of whole packets.
pub mod Wire
pub mod RoundTrip
pub mod Fields
pub mod Total
use aicl.Common.{Bool, bit_or, if◌then◌else◌, leb, length, ltb, take, ℕ, ◌++◌, ◌+◌, ◌==◌}
use aicl.Bin.Header.{compute_crc32, header_size, pack_header, validate_header}
use aicl.Bin.Packet.{Packet, build_payload}
use aicl.Bin.View.{PacketView, packet_view}
use aicl.Py.Result.{Result, checksum_error, guard, ok, truncated_packet, ◌>>=◌, ◌>>◌}
use aicl.Py.Struct.{Bytes, be, unpack_at}

abbrev pub flag_has_trailer : ℕ
flag_has_trailer = 0x0100

abbrev pub checksum_size : ℕ
checksum_size = 4

unfoldable pub encode : Packet → Bool → Result Bytes
encode p checksum = do
  payload ← build_payload p
  let flags = if checksum then bit_or p.flags flag_has_trailer else p.flags
  header ← pack_header p.version flags p.message_id p.correlation_id p.deadline_ms (length payload)
  let result = header ++ payload
  ok (if checksum then result ++ be 4 (compute_crc32 result) else result)

-- `validate_trailer`
pub validate_trailer : Bytes → ℕ → Result (Unit {0})
validate_trailer src expected = guard (compute_crc32 src == expected) checksum_error

-- `validate_flags`, which `decode` calls on the header, counts the packet types and accepts all.
unfoldable pub decode : Bytes → Result PacketView
unfolding validate_trailer
decode raw = do
  guard (leb header_size (length raw)) truncated_packet
  validate_header (take header_size raw)
  payload_length ← unpack_at 4 44 raw
  let payload_end = header_size + payload_length
  guard (leb payload_end (length raw)) truncated_packet
  let checked = do
    expected ← unpack_at 4 payload_end raw
    validate_trailer (take payload_end raw) expected
    packet_view raw header_size (payload_end + checksum_size)
  let plain = packet_view raw header_size payload_end
  if ltb payload_end (length raw) then checked else plain
