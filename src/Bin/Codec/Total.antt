-- ===== src/Bin/Codec/Total.antt =====
-- aicl/bin/codec_api.py: `decode` returns a view or raises, on every input.
use aicl.Common.{
  Bool, List, [], drop, false, leb, length, ltb, same_list, suc, take, true, zero, ℕ, ◌+◌, ◌==◌,
  ◌∷◌, ◌≢◌,
}
use aicl.Bin.Codec.{checksum_size, decode, validate_trailer}
use aicl.Bin.Header.{
  compute_crc32, header_crc_scope, header_size, is_supported, magic, max_payload, unpack_header,
  validate_header,
}
use aicl.Bin.Operands.Total.{decode_symbol_total}
use aicl.Bin.Symbol.{Symbol}
use aicl.Bin.Varint.Decode.{decode_varint-Ensures}
use aicl.Bin.View.{Extensions, packet_view, read_operands, read_payload, sort_operand}
use aicl.Py.Result.{Exc, Result, err, guard, out_of_fuel}
use aicl.Py.Result.Ensures.{Ensures, Ensures-bind, Ensures-if, Ensures-ne, holds, raises}
use aicl.Py.Struct.{Bytes, unpack_at}

abbrev pub Fine {ℓ} : {A : Type ℓ} → Result A → Type ℓ
Fine r = Ensures (λ _. Unit {0}) r

pub guard-Fine : (b : Bool) {e : Exc} → e ≢ out_of_fuel → Fine (guard b e)
guard-Fine true n = holds tt
guard-Fine false n = raises n

pub unpack_at-Fine : (w i : ℕ) (src : Bytes) → Fine (unpack_at w i src)
unfolding unpack_at
unpack_at-Fine w i src = Ensures-if (ltb (length src) (i + w)) (raises (λ e. cc)) (holds tt)

pub validate_header-Fine : (src : Bytes) → Fine (validate_header src)
unfolding validate_header
validate_header-Fine src = Ensures-bind (guard-Fine (leb header_size (length src)) (λ e. cc)) λ _ _.
    Ensures-bind (guard-Fine (same_list (take 4 src) magic) (λ e. cc)) λ _ _.
      Ensures-bind (unpack_at-Fine 2 4 src) λ version _.
        Ensures-bind (guard-Fine (is_supported version) (λ e. cc)) λ _ _.
          Ensures-bind (unpack_at-Fine 4 header_crc_scope src) λ crc _.
            Ensures-bind (guard-Fine (crc == compute_crc32 (take header_crc_scope src)) (λ e. cc))
              λ _ _.
                Ensures-bind (unpack_at-Fine 4 44 src)
                  λ size _. guard-Fine (leb size max_payload) (λ e. cc)

unpack_header-Fine : (src : Bytes) → Fine (unpack_header src)
unfolding unpack_header
unpack_header-Fine src = Ensures-bind (guard-Fine (leb header_size (length src)) (λ e. cc)) λ _ _.
    Ensures-bind (unpack_at-Fine 2 4 src) λ version _. Ensures-bind (unpack_at-Fine 2 6 src) λ _ _.
      Ensures-bind (unpack_at-Fine 4 40 src) λ _ _. Ensures-bind (unpack_at-Fine 4 44 src) λ _ _.
        Ensures-bind (guard-Fine (same_list (take 4 src) magic) (λ e. cc))
          λ _ _. Ensures-bind (guard-Fine (is_supported version) (λ e. cc)) λ _ _. holds tt

read_operands-Fine :
    (n : ℕ) (src : Bytes) (sorted : List Symbol × Extensions) → Fine (read_operands n src sorted)
unfolding read_operands
read_operands-Fine zero src sorted = holds tt
read_operands-Fine (suc n) src sorted =
    Ensures-bind (decode_symbol_total src)
      λ (s, rest) _. read_operands-Fine n rest (sort_operand s sorted)

read_payload-Fine : (src : Bytes) → Fine (read_payload src)
unfolding read_payload
read_payload-Fine [] = holds tt
read_payload-Fine (op ∷ []) = holds tt
read_payload-Fine (op ∷ b ∷ src) =
    Ensures-bind (decode_varint-Ensures (b ∷ src))
      λ (count, rest) _. Ensures-bind (read_operands-Fine count rest ([], [])) λ _ _. holds tt

packet_view-Fine : (src : Bytes) (a b : ℕ) → Fine (packet_view src a b)
unfolding packet_view
packet_view-Fine src a b =
    Ensures-bind (unpack_header-Fine (take header_size src))
      λ _ _. Ensures-bind (read_payload-Fine (drop a (take b src))) λ _ _. holds tt

pub decode-Fine : (src : Bytes) → Fine (decode src)
unfolding decode validate_trailer
decode-Fine src = Ensures-bind (guard-Fine (leb header_size (length src)) (λ e. cc)) λ _ _.
    Ensures-bind (validate_header-Fine (take header_size src)) λ _ _.
      Ensures-bind (unpack_at-Fine 4 44 src) λ size _.
        Ensures-bind (guard-Fine (leb (header_size + size) (length src)) (λ e. cc)) λ _ _.
          Ensures-if (ltb (header_size + size) (length src))
            (Ensures-bind (unpack_at-Fine 4 (header_size + size) src) λ crc _.
              Ensures-bind
                (guard-Fine (compute_crc32 (take (header_size + size) src) == crc) (λ e. cc))
                λ _ _. packet_view-Fine src header_size (header_size + size + checksum_size))
            (packet_view-Fine src header_size (header_size + size))

-- `decode` returns a view or raises one of the exceptions of the code on every input: the model of
-- the nested operands never runs out of fuel.
pub decode_total : (src : Bytes) → decode src ≢ err out_of_fuel
decode_total src = Ensures-ne (decode-Fine src)
