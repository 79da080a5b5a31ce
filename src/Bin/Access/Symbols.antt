-- ===== src/Bin/Access/Symbols.antt =====
-- aicl/bin/operands.py: `decode_symbols` on bare operands, and its end.
use aicl.Common.{
  All, List, [], ap, arith, length, length-append, refl, suc, sym, zero, ℕ, ◌++◌, ◌∙◌, ◌∷◌, ◌≡◌,
  ◌≤◌,
}
use aicl.Bin.Access.{decode_all, decode_symbols}
use aicl.Bin.Operands.{decode_symbol, decode_within, encode_symbol}
use aicl.Bin.Operands.Fits.{Fits}
use aicl.Bin.Operands.Total.{decode_symbol_total}
use aicl.Bin.Packet.{encode_symbols}
use aicl.Bin.Symbol.{Symbol}
use aicl.Bin.View.Operands.{Fits-Reads}
use aicl.Bin.View.Payload.{encode_symbol_room}
use aicl.Py.Result.{>>=-eq-ok, ok, ok-injective}
use aicl.Py.Result.Ensures.{Ensures, Ensures-bind, holds}
use aicl.Py.Struct.{Bytes}
use native.Mathlib.Nat.{le_refl}

decode_all_step :
    (f : ℕ) (src : Bytes) {s : Symbol} {rest : Bytes} {ss : List Symbol}
    → decode_symbol src ≡ ok (s, rest)
    → decode_all f rest ≡ ok ss
    → decode_all (suc f) src ≡ ok (s ∷ ss)
unfolding decode_all
decode_all_step f [] e h = unfold decode_symbol decode_within in cc
decode_all_step f (b ∷ src) e h = rw (e, h) refl

decode_all-encode_symbols :
    (f : ℕ) (ss : List Symbol) {body : Bytes}
    → All Fits ss
    → encode_symbols ss ≡ ok body
    → length body ≤ f
    → decode_all f body ≡ ok ss
unfolding encode_symbols
decode_all-encode_symbols f [] {body} h e fuel =
    let nil : [] ≡ body = ok-injective e in rw (← nil) (unfold decode_all in refl)
decode_all-encode_symbols zero (s ∷ ss) {body} h e fuel =
    let (here, p, e1) = >>=-eq-ok (encode_symbol s) _ e in
    let (there, q, e2) = >>=-eq-ok (encode_symbols ss) _ e1 in
    let whole : here ++ there ≡ body = ok-injective e2 in
    absurd (omega (arith, ap length whole, length-append here there, encode_symbol_room s p))
decode_all-encode_symbols (suc f) (s ∷ ss) {body} h e fuel =
    let (here, p, e1) = >>=-eq-ok (encode_symbol s) _ e in
    let (there, q, e2) = >>=-eq-ok (encode_symbols ss) _ e1 in
    let whole : here ++ there ≡ body = ok-injective e2 in
    let (out, wrote, reads) = Fits-Reads s h.0 in
    let same : out ≡ here = ok-injective (sym wrote ∙ p) in
    ap (decode_all (suc f)) (sym whole)
    ∙ decode_all_step f (here ++ there)
        (ap (λ (b : Bytes). decode_symbol (b ++ there)) (sym same) ∙ reads there)
        (decode_all-encode_symbols f ss h.1 q
          (omega (arith, ap length whole, length-append here there, encode_symbol_room s p)))

-- Operands that fit, written one after the other, are read back in order.
pub decode_symbols-encode_symbols :
    (ss : List Symbol) {body : Bytes}
    → All Fits ss
    → encode_symbols ss ≡ ok body
    → decode_symbols body ≡ ok ss
unfolding decode_symbols
decode_symbols-encode_symbols ss {body} h e =
    decode_all-encode_symbols (length body) ss h e (le_refl _)

decode_all-Ensures :
    (f : ℕ) (src : Bytes)
    → length src ≤ f
    → Ensures (λ ss. length ss ≤ length src) (decode_all f src)
unfolding decode_all
decode_all-Ensures f [] h = holds (omega arith)
decode_all-Ensures zero (b ∷ src) h = absurd (omega arith)
decode_all-Ensures (suc f) (b ∷ src) h =
    Ensures-bind (decode_symbol_total (b ∷ src)) λ (s, rest) shorter.
      Ensures-bind (decode_all-Ensures f rest (omega arith)) λ ss few. holds (omega arith)

-- `decode_symbols` ends on every input, with at most one operand for each byte.
pub decode_symbols_total :
    (src : Bytes) → Ensures (λ ss. length ss ≤ length src) (decode_symbols src)
unfolding decode_symbols
decode_symbols_total src = decode_all-Ensures (length src) src (le_refl _)
