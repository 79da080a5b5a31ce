-- ===== src/Bin/Codec/Fields.antt =====
-- aicl/bin/codec_api.py and aicl/bin/codec_view.py: the fields of a packet behind `decode`.
use aicl.Common.{Bool, ap, length, ◌<◌, ◌∙◌, ◌≡◌}
use aicl.Bin.Codec.{decode, encode}
use aicl.Bin.Codec.RoundTrip.{decode_refused, encode_parts}
use aicl.Bin.Header.{max_payload}
use aicl.Bin.Packet.{Packet, build_payload}
use aicl.Py.Result.{err, header_error, ok}
use aicl.Py.Struct.{Bytes}

-- If `encode` succeeds on a packet whose payload has more than 0xFFFFFF bytes, `decode` raises
-- HeaderError on the result.
pub decode-encode_oversize :
    (p : Packet) (checksum : Bool) {payload wire : Bytes}
    → build_payload p ≡ ok payload
    → max_payload < length payload
    → encode p checksum ≡ ok wire
    → decode wire ≡ err header_error
decode-encode_oversize p checksum {payload} {wire} built big packs =
    let (d, c, is) = encode_parts p checksum built packs in
    ap decode is ∙ decode_refused checksum payload c big
