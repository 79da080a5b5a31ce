-- ===== src/Bin/Operands/Leaves.antt =====
-- aicl/bin/operands.py: the operands without operands inside survive the wire.
use aicl.Common.{
  Bool, [], append_assoc, arith, drop, drop-append, false, length, length-append, pos, refl,
  take-append, true, ℕ, ℤ, ◌++◌, ◌<◌, ◌^◌, ◌∷◌, ◌≡◌, ◌≤◌,
}
use aicl.Bin.Operands.{Decoder, decode_sized, decode_value, decode_within, encode_value}
use aicl.Bin.Operands.Fits.{FitsSingle, FitsStr}
use aicl.Bin.Symbol.{
  Kind, Value, bool, boolean, buf_ref, byte_string, bytes, double, float, handle, int, integer,
  nothing, null, ref, single, str, string, triple, uuid, vendor,
}
use aicl.Bin.Varint.{encode_varint}
use aicl.Bin.Varint.RoundTrip.{encode_varint_codes}
use aicl.Py.Ints.{InRange}
use aicl.Py.Ints.Laws.{pack_int_total, unpack_int-pack_int}
use aicl.Py.Result.{Result, ok, symbol_error}
use aicl.Py.Struct.{Bytes, be, from_be-be, length-be, read_bytes-append}
use aicl.Py.Utf8.{Str}
use aicl.Py.Utf8.Laws.{utf8_decode-utf8_encode}

-- `enc` writes some bytes, and `dec` reads `a` off their front with fuel for each of them.
pub record Codes {A : Type 0} (enc : Result Bytes) (dec : ℕ → Decoder A) (a : A) : Type 0 where
  pub out : Bytes
  pub wrote : enc ≡ ok out
  pub reads : (f : ℕ) (rest : Bytes) → length out ≤ f → dec f (out ++ rest) ≡ ok (a, rest)

abbrev pub CodesValue : Value → Kind → Type 0
CodesValue v k = Codes (encode_value v k) (λ f. decode_value (decode_within f) k) v

-- A length below 2^28 and as many bytes are read back as they were written.
pub sized_codes :
    (b : Bytes)
    → length b < 2 ^ 28
    → (size : Bytes) × (encode_varint (pos (length b)) ≡ ok size)
      × ((rest : Bytes) → decode_sized ((size ++ b) ++ rest) ≡ ok (b, rest))
unfolding decode_sized
sized_codes b h =
    let (size, wrote, read) = encode_varint_codes (length b) h in
    (
      size,
      wrote,
      λ rest.
          rw (append_assoc size b rest, read (b ++ rest))
            (read_bytes-append symbol_error (length b) b rest refl),
    )

pub integer_codes : (z : ℤ) (s : Bool) (w : ℕ) → InRange s w z → CodesValue (int z) (integer s w)
unfolding encode_value decode_value
integer_codes z s w h =
    let (bs, wrote) = pack_int_total s w z h in
    let (back, size, _) = unpack_int-pack_int s w z wrote in
    record {
      out = bs;
      wrote = wrote;
      reads = λ f rest _. rw (read_bytes-append symbol_error w bs rest size, back);
    }

pub handle_codes : (z : ℤ) → InRange false 8 z → CodesValue (int z) handle
unfolding encode_value decode_value
handle_codes z h =
    let (bs, wrote) = pack_int_total false 8 z h in
    let (back, size, _) = unpack_int-pack_int false 8 z wrote in
    record {
      out = bs;
      wrote = wrote;
      reads = λ f rest _. rw (read_bytes-append symbol_error 8 bs rest size, back);
    }

pub ref_codes : (z : ℤ) → InRange false 2 z → CodesValue (int z) ref
unfolding encode_value decode_value
ref_codes z h =
    let (bs, wrote) = pack_int_total false 2 z h in
    let (back, size, _) = unpack_int-pack_int false 2 z wrote in
    record {
      out = bs;
      wrote = wrote;
      reads = λ f rest _. rw (read_bytes-append symbol_error 2 bs rest size, back);
    }

pub single_codes : (d : ℕ) → FitsSingle d → CodesValue (float d) single
unfolding encode_value decode_value
single_codes d (s, rounds, small, back) = record {
  out = be 4 s;
  wrote = rw rounds;
  reads = λ f rest _.
      rw (
        read_bytes-append symbol_error 4 (be 4 s) rest (length-be 4 s),
        from_be-be 4 s small,
        back,
      );
}

pub double_codes : (d : ℕ) → d < 2 ^ 64 → CodesValue (float d) double
unfolding encode_value decode_value
double_codes d h = record {
  out = be 8 d;
  wrote = refl;
  reads = λ f rest _.
      rw (read_bytes-append symbol_error 8 (be 8 d) rest (length-be 8 d), from_be-be 8 d h);
}

pub boolean_codes : (b : Bool) → CodesValue (bool b) boolean
unfolding encode_value decode_value
boolean_codes true = record { out = 1 ∷ []; wrote = refl; reads = λ f rest _. refl }
boolean_codes false = record { out = 0 ∷ []; wrote = refl; reads = λ f rest _. refl }

pub null_codes : CodesValue nothing null
unfolding encode_value decode_value
null_codes = record { out = []; wrote = refl; reads = λ f rest _. refl }

pub uuid_codes : (b : Bytes) → length b ≡ 16 → CodesValue (bytes b) uuid
unfolding encode_value decode_value
uuid_codes b h = record {
  out = b;
  wrote = ground arith;
  reads = λ f rest _. rw (read_bytes-append symbol_error 16 b rest h);
}

pub string_codes : (s : Str) → FitsStr s → CodesValue (str s) string
unfolding encode_value decode_value
string_codes s (b, encoded, small) =
    let (size, wrote, read) = sized_codes b small in
    let (decoded, _) = utf8_decode-utf8_encode s encoded in
    record {
      out = size ++ b;
      wrote = rw (encoded, wrote);
      reads = λ f rest _. rw (read rest, decoded);
    }

pub raw_codes : (b : Bytes) → length b < 2 ^ 28 → CodesValue (bytes b) byte_string
unfolding encode_value decode_value
raw_codes b small =
    let (size, wrote, read) = sized_codes b small in
    record { out = size ++ b; wrote = rw wrote; reads = λ f rest _. rw (read rest) }

pub vendor_codes : (b : Bytes) → length b < 2 ^ 28 → CodesValue (bytes b) vendor
unfolding encode_value decode_value
vendor_codes b small =
    let (size, wrote, read) = sized_codes b small in
    record { out = size ++ b; wrote = rw wrote; reads = λ f rest _. rw (read rest) }

pub buf_ref_codes :
    (a b c : ℤ)
    → InRange false 8 a
    → InRange false 4 b
    → InRange false 4 c
    → CodesValue (triple a b c) buf_ref
unfolding encode_value decode_value
buf_ref_codes a b c ha hb hc =
    let (x, wx) = pack_int_total false 8 a ha in
    let (y, wy) = pack_int_total false 4 b hb in
    let (z, wz) = pack_int_total false 4 c hc in
    let (bx, lx, _) = unpack_int-pack_int false 8 a wx in
    let (by, ly, _) = unpack_int-pack_int false 4 b wy in
    let (bz, lz, _) = unpack_int-pack_int false 4 c wz in
    let whole : length (x ++ (y ++ z)) ≡ 16 =
      omega (arith, length-append x (y ++ z), length-append y z) in
    let tail : drop 12 (x ++ (y ++ z)) ≡ z =
      rw (← append_assoc x y z) (drop-append 12 (x ++ y) z (omega (arith, length-append x y))) in
    record {
      out = x ++ (y ++ z);
      wrote = rw (wx, wy, wz);
      reads = λ f rest _. rw (
        read_bytes-append symbol_error 16 (x ++ (y ++ z)) rest whole,
        tail,
        drop-append 8 x (y ++ z) lx,
        take-append 8 x (y ++ z) lx,
        take-append 4 y z ly,
        bx,
        by,
        bz,
      );
    }
