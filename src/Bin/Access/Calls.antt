-- ===== src/Bin/Access/Calls.antt =====
-- aicl/bin/codec_packet.py and aicl/bin/codec_view.py: model and tool invocations, and error infos,
-- are read back.
use aicl.Common.{
  [], ap, append_assoc, arith, false, length, length-append, le→leb, refl, subst, sym, ℕ, ℤ, ◌++◌,
  ◌+◌, ◌∙◌, ◌∷◌, ◌≡◌, ◌≤◌,
}
use aicl.Bin.Access.Fixed.{front_byte, int_at-last, int_at-skip}
use aicl.Bin.Access.Infos.{read_model, read_tool, timeout_at}
use aicl.Bin.Access.Texts.{text_at}
use aicl.Bin.Packet.{pack_model, pack_tool}
use aicl.Bin.Types.{ModelInvocation, ToolInvocation, pack_len}
use aicl.Bin.Types.Laws.{pack_len_byte}
use aicl.Py.Ints.{pack_int}
use aicl.Py.Ints.Laws.{unpack_int-pack_int}
use aicl.Py.Result.{>>=-eq-ok, ok, ok-injective}
use aicl.Py.Struct.{Bytes, slice}
use aicl.Py.Utf8.{utf8_decode, utf8_encode}

timeout_last :
    (off : ℕ) (xs : Bytes) (z : ℤ) {t : Bytes}
    → length xs ≡ off
    → pack_int false 4 z ≡ ok t
    → timeout_at off (xs ++ t) ≡ ok z
timeout_last off xs z {t} h e =
    let (_, size, _) = unpack_int-pack_int false 4 z e in
    rw (le→leb (off + 4) (length (xs ++ t)) (omega (arith, length-append xs t)))
      (int_at-skip false 4 off off 0 xs t h (omega arith) ∙ int_at-last false 4 z e)

model_bytes :
    (m : ModelInvocation) {nb tb pb t : Bytes}
    → utf8_encode m.model_name ≡ ok nb
    → utf8_encode m.task ≡ ok tb
    → utf8_encode m.parameters_json ≡ ok pb
    → pack_int false 4 m.timeout_ms ≡ ok t
    → read_model (length nb ∷ length tb ∷ length pb ∷ (nb ++ (tb ++ (pb ++ t)))) ≡ ok m
unfolding read_model
model_bytes m {nb} {tb} {pb} {t} pn pt pp pe =
    let nl : ℕ = length nb in
    let tl : ℕ = length tb in
    let pl : ℕ = length pb in
    let sizes : Bytes = nl ∷ tl ∷ pl ∷ [] in
    let v : Bytes = sizes ++ (nb ++ (tb ++ (pb ++ t))) in
    let name : utf8_decode (slice 3 nl v) ≡ ok m.model_name =
      text_at 3 nl m.model_name sizes (tb ++ (pb ++ t)) pn refl refl in
    let task : utf8_decode (slice (3 + nl) tl v) ≡ ok m.task =
      text_at (3 + nl) tl m.task (sizes ++ nb) (pb ++ t) pt (omega arith) refl in
    let bracket : v ≡ (sizes ++ (nb ++ tb)) ++ (pb ++ t) =
      ap (λ (u : Bytes). sizes ++ u) (sym (append_assoc nb tb (pb ++ t))) in
    let parameters : utf8_decode (slice (3 + nl + tl) pl v) ≡ ok m.parameters_json =
      ap (λ (u : Bytes). utf8_decode (slice (3 + nl + tl) pl u)) bracket
      ∙ text_at (3 + nl + tl) pl m.parameters_json (sizes ++ (nb ++ tb)) t pp
          (omega (arith, length-append nb tb)) refl in
    let timeout : timeout_at (3 + nl + tl + pl) v ≡ ok m.timeout_ms =
      ap (timeout_at (3 + nl + tl + pl)) (bracket ∙ sym (append_assoc (sizes ++ (nb ++ tb)) pb t))
      ∙ timeout_last (3 + nl + tl + pl) ((sizes ++ (nb ++ tb)) ++ pb) m.timeout_ms
          (omega (arith, length-append (nb ++ tb) pb, length-append nb tb)) pe in
    rw (name, task, parameters, timeout) refl

pub read_model-pack_model :
    (m : ModelInvocation) {bs : Bytes}
    → pack_model m ≡ ok bs
    → (read_model bs ≡ ok m) × (3 ≤ length bs)
unfolding pack_model
read_model-pack_model m {bs} e0 =
    let (nb, pn, e1) = >>=-eq-ok (utf8_encode m.model_name) _ e0 in
    let (tb, pt, e2) = >>=-eq-ok (utf8_encode m.task) _ e1 in
    let (pb, pp, e3) = >>=-eq-ok (utf8_encode m.parameters_json) _ e2 in
    let (nl, pnl, e4) = >>=-eq-ok (pack_len 1 (length nb)) _ e3 in
    let (tl, ptl, e5) = >>=-eq-ok (pack_len 1 (length tb)) _ e4 in
    let (pl, ppl, e6) = >>=-eq-ok (pack_len 1 (length pb)) _ e5 in
    let (t, pe, e7) = >>=-eq-ok (pack_int false 4 m.timeout_ms) _ e6 in
    subst (λ (v : Bytes). (read_model v ≡ ok m) × (3 ≤ length v))
      (sym (
          front_byte (pack_len_byte (length nb) pnl) (
            front_byte (pack_len_byte (length tb) ptl)
              (front_byte (pack_len_byte (length pb) ppl) refl)))
        ∙ ok-injective e7)
      (model_bytes m pn pt pp pe, omega arith)

tool_bytes :
    (c : ToolInvocation) {nb pb t : Bytes}
    → utf8_encode c.tool_name ≡ ok nb
    → utf8_encode c.parameters_json ≡ ok pb
    → pack_int false 4 c.timeout_ms ≡ ok t
    → read_tool (length nb ∷ length pb ∷ (nb ++ (pb ++ t))) ≡ ok c
unfolding read_tool
tool_bytes c {nb} {pb} {t} pn pp pe =
    let nl : ℕ = length nb in
    let pl : ℕ = length pb in
    let sizes : Bytes = nl ∷ pl ∷ [] in
    let v : Bytes = sizes ++ (nb ++ (pb ++ t)) in
    let name : utf8_decode (slice 2 nl v) ≡ ok c.tool_name =
      text_at 2 nl c.tool_name sizes (pb ++ t) pn refl refl in
    let parameters : utf8_decode (slice (2 + nl) pl v) ≡ ok c.parameters_json =
      text_at (2 + nl) pl c.parameters_json (sizes ++ nb) t pp (omega arith) refl in
    let timeout : timeout_at (2 + nl + pl) v ≡ ok c.timeout_ms =
      ap (λ (u : Bytes). timeout_at (2 + nl + pl) (sizes ++ u)) (sym (append_assoc nb pb t))
      ∙ timeout_last (2 + nl + pl) (sizes ++ (nb ++ pb)) c.timeout_ms
          (omega (arith, length-append nb pb)) pe in
    rw (name, parameters, timeout) refl

pub read_tool-pack_tool :
    (c : ToolInvocation) {bs : Bytes}
    → pack_tool c ≡ ok bs
    → (read_tool bs ≡ ok c) × (2 ≤ length bs)
unfolding pack_tool
read_tool-pack_tool c {bs} e0 =
    let (nb, pn, e1) = >>=-eq-ok (utf8_encode c.tool_name) _ e0 in
    let (pb, pp, e2) = >>=-eq-ok (utf8_encode c.parameters_json) _ e1 in
    let (nl, pnl, e3) = >>=-eq-ok (pack_len 1 (length nb)) _ e2 in
    let (pl, ppl, e4) = >>=-eq-ok (pack_len 1 (length pb)) _ e3 in
    let (t, pe, e5) = >>=-eq-ok (pack_int false 4 c.timeout_ms) _ e4 in
    subst (λ (v : Bytes). (read_tool v ≡ ok c) × (2 ≤ length v))
      (sym (
          front_byte (pack_len_byte (length nb) pnl)
            (front_byte (pack_len_byte (length pb) ppl) refl))
        ∙ ok-injective e5)
      (tool_bytes c pn pp pe, omega arith)
