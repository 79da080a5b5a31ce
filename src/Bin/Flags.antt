-- ===== src/Bin/Flags.antt =====
-- The flags of aicl/bin/constants.py, with `validate_flags` and `get_packet_type_name` of
-- aicl/bin/validation.py and the tests of flags in aicl/bin/codec_view.py.
use aicl.Common.{Bool, bit_and, if◌then◌else◌, ltb, not, ℕ, ◌&&◌, ◌+◌, ◌==◌}
use aicl.Bin.Codec.{flag_has_trailer}
use aicl.Bin.View.{PacketView}
use aicl.Py.Any.{codes}
use aicl.Py.Result.{Result, ok}
use aicl.Py.Utf8.{Str}

abbrev pub flag_request : ℕ
flag_request = 0x0001

abbrev pub flag_response : ℕ
flag_response = 0x0002

abbrev pub flag_stream_chunk : ℕ
flag_stream_chunk = 0x0004

abbrev pub flag_stream_end : ℕ
flag_stream_end = 0x0008

abbrev pub flag_error : ℕ
flag_error = 0x0010

abbrev flag_cancel : ℕ
flag_cancel = 0x0020

abbrev pub flag_heartbeat : ℕ
flag_heartbeat = 0x0040

abbrev pub flag_compressed : ℕ
flag_compressed = 0x0080

abbrev is_set : ℕ → ℕ → Bool
is_set flags f = not (bit_and flags f == 0)

abbrev one_if : Bool → ℕ
one_if b = if b then 1 else 0

abbrev pub packet_type_bits : ℕ → ℕ
packet_type_bits flags =
    one_if (is_set flags flag_request)
    + one_if (is_set flags flag_response)
    + one_if (is_set flags flag_error)
    + one_if (is_set flags flag_heartbeat)
    + one_if (is_set flags flag_cancel)

-- The test for several types is there, and what follows it is `pass`.
abbrev pub validate_flags : ℕ → Result (Unit {0})
validate_flags flags =
    if ltb 1 (packet_type_bits flags) && not (is_set flags flag_error) then ok tt else ok tt

abbrev pub get_packet_type_name : ℕ → Str
get_packet_type_name flags =
    if is_set flags flag_request
    then codes "REQUEST"
    else if is_set flags flag_response
    then codes "RESPONSE"
    else if is_set flags flag_error
    then codes "ERROR"
    else if is_set flags flag_heartbeat
    then codes "HEARTBEAT"
    else if is_set flags flag_cancel
    then codes "CANCEL"
    else if is_set flags flag_stream_chunk
    then codes "STREAM_CHUNK"
    else if is_set flags flag_stream_end
    then codes "STREAM_END"
    else codes "UNKNOWN"

module _ (view : PacketView) where
  abbrev pub has_trailer : Bool
  has_trailer = is_set view.header.flags flag_has_trailer

  abbrev pub is_request : Bool
  is_request = is_set view.header.flags flag_request

  abbrev pub is_response : Bool
  is_response = is_set view.header.flags flag_response

  abbrev pub is_error_packet : Bool
  is_error_packet = is_set view.header.flags flag_error

  abbrev pub is_stream_chunk : Bool
  is_stream_chunk = is_set view.header.flags flag_stream_chunk

  abbrev pub is_stream_end : Bool
  is_stream_end = is_set view.header.flags flag_stream_end
