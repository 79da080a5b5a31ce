-- ===== src/Bin/Access/Found.antt =====
-- aicl/bin/codec_packet.py and aicl/bin/codec_view.py: the values that one statement of
-- `_append_extensions` adds, as a property of the view looks them up.
use aicl.Common.{
  ==_iff, Bool-cases, List, Option, [], ap, append-nil, arith, false, if◌then◌else◌, inl, inr,
  length, le→ltb, ltb, map, negsuc, none, pos, refl, some, sym, ℕ, ℤ, ◌++◌, ◌<◌, ◌==◌, ◌^◌, ◌∙◌,
  ◌∷◌, ◌≡◌, ◌≢◌, ◌≤◌,
}
use aicl.Bin.Access.{byte_at, read_each, when_value, with_room}
use aicl.Bin.Packet.{when_any, when_bytes, when_confidence, when_priority, when_some}
use aicl.Bin.Packet.Fields.{sequence}
use aicl.Bin.Types.Laws.{pack_byte}
use aicl.Bin.View.{first}
use aicl.Py.Float.{one_bits}
use aicl.Py.Ints.{pack_int}
use aicl.Py.Result.{>>=-eq-ok, Result, map_ok, ok, ok-injective}
use aicl.Py.Struct.{Bytes, be, length-be, unpack_at, unpack_at-be}
use aicl.Transport.Memory.{read}

-- One statement that adds one value.
pub sequence_once :
    (r : Result Bytes) {vs : List Bytes}
    → sequence (r ∷ []) ≡ ok vs
    → (b : Bytes) × (r ≡ ok b) × (vs ≡ b ∷ [])
unfolding sequence
sequence_once r {vs} e = let (b, p, e1) = >>=-eq-ok r _ e in (b, p, sym (ok-injective e1))

pub found_some :
    {A : Type 0} (o : Option A) (pack : A → Result Bytes) (read : Option Bytes → Result (Option A))
    {vs : List Bytes}
    → sequence (when_some o pack ++ []) ≡ ok vs
    → read none ≡ ok none
    → ((a : A) (b : Bytes) → o ≡ some a → pack a ≡ ok b → read (some b) ≡ ok (some a))
    → read (first vs) ≡ ok o
unfolding sequence
found_some none pack read {vs} e h k =
    let nil : [] ≡ vs = ok-injective e in ap (λ (v : List Bytes). read (first v)) (sym nil) ∙ h
found_some (some a) pack read {vs} e h k =
    let (b, p, is) = sequence_once (pack a) e in
    ap (λ (v : List Bytes). read (first v)) is ∙ k a b refl p

-- A list that is sent if it is not empty, and a read that returns some view of it.
pub found_as :
    {A B : Type 0} (xs : List A) (r : Result Bytes) (read : Option Bytes → Result B)
    (shown : List A → B) {vs : List Bytes}
    → sequence (when_any xs r ++ []) ≡ ok vs
    → read none ≡ ok (shown [])
    → ((b : Bytes) → xs ≢ [] → r ≡ ok b → read (some b) ≡ ok (shown xs))
    → read (first vs) ≡ ok (shown xs)
unfolding sequence
found_as [] r read shown {vs} e h k =
    let nil : [] ≡ vs = ok-injective e in ap (λ (v : List Bytes). read (first v)) (sym nil) ∙ h
found_as (x ∷ xs) r read shown {vs} e h k =
    let (b, p, is) = sequence_once r e in
    ap (λ (v : List Bytes). read (first v)) is ∙ k b (λ x. cc) p

pub found_any :
    {A : Type 0} (xs : List A) (r : Result Bytes) (read : Option Bytes → Result (List A))
    {vs : List Bytes}
    → sequence (when_any xs r ++ []) ≡ ok vs
    → read none ≡ ok []
    → ((b : Bytes) → xs ≢ [] → r ≡ ok b → read (some b) ≡ ok xs)
    → read (first vs) ≡ ok xs
found_any xs r read = found_as xs r read (λ ys. ys)

-- Optional bytes, of which the empty ones are not sent.
pub found_bytes :
    (o : Option Bytes) {vs : List Bytes}
    → o ≢ some []
    → sequence (when_bytes o ++ []) ≡ ok vs
    → first vs ≡ o
unfolding sequence
found_bytes none {vs} n e = let nil : [] ≡ vs = ok-injective e in ap first (sym nil)
found_bytes (some []) {vs} n e = absurd (n refl)
found_bytes (some (b ∷ v)) {vs} n e =
    let (c, p, is) = sequence_once (ok (b ∷ v)) e in ap first is ∙ ap some (sym (ok-injective p))

pub found_each :
    {A : Type 0} (xs : List A) (pack : A → Result Bytes) (read : Bytes → Result A) {vs : List Bytes}
    → sequence (map pack xs ++ []) ≡ ok vs
    → ((a : A) (b : Bytes) → pack a ≡ ok b → read b ≡ ok a)
    → read_each read vs ≡ ok xs
unfolding sequence read_each
found_each [] pack read {vs} e h = let nil : [] ≡ vs = ok-injective e in rw (← nil) refl
found_each (x ∷ xs) pack read {vs} e h =
    let (b, p, e1) = >>=-eq-ok (pack x) _ e in
    let (bs, q, e2) = >>=-eq-ok (sequence (map pack xs ++ [])) _ e1 in
    let whole : b ∷ bs ≡ vs = ok-injective e2 in
    ap (read_each read) (sym whole) ∙ rw (h x b p, found_each xs pack read q h) refl

-- `f(v) if v else []`, where the empty value reads as the empty list.
pub when_value_list :
    {A : Type 0} (f : Bytes → Result (List A)) (b : Bytes) {xs : List A}
    → f [] ≡ ok []
    → f b ≡ ok xs
    → when_value (some b) [] f ≡ ok xs
when_value_list f [] n e = sym n ∙ e
when_value_list f (x ∷ b) n e = e

pub when_value-some :
    {A : Type 0} (f : Bytes → Result A) (b : Bytes) (d : A)
    → 1 ≤ length b
    → when_value (some b) d f ≡ f b
when_value-some f [] d h = absurd (omega arith)
when_value-some f (x ∷ b) d h = refl

pub with_room-some :
    {A : Type 0} (n : ℕ) (b : Bytes) (f : Bytes → Result A) {a : A}
    → 1 ≤ n
    → n ≤ length b
    → f b ≡ ok a
    → with_room n (some b) f ≡ ok (some a)
with_room-some n b f one room e =
    when_value-some (λ v. if ltb (length v) n then ok none else map_ok some (f v)) b none
      (omega arith)
    ∙ rw (le→ltb (length b) n room, e) refl

pub found_confidence :
    (c : ℕ) {vs : List Bytes}
    → c < 2 ^ 64
    → sequence (when_confidence c ++ []) ≡ ok vs
    → when_value (first vs) one_bits (unpack_at 8 0) ≡ ok c
found_confidence c {vs} small e = elim (Bool-cases (c == one_bits)) [
  | inl same ↦
      let e1 : sequence [] ≡ ok vs = sym (rw same refl) ∙ e in
      let nil : [] ≡ vs = ok-injective (unfold sequence in e1) in
      ap (λ (v : List Bytes). when_value (first v) one_bits (unpack_at 8 0)) (sym nil)
      ∙ ap ok (sym ((==_iff c one_bits).0 same))
  | inr differ ↦
      let e1 : sequence (ok (be 8 c) ∷ []) ≡ ok vs = sym (rw differ refl) ∙ e in
      let (b, p, is) = sequence_once (ok (be 8 c)) e1 in
      ap (λ (v : List Bytes). when_value (first v) one_bits (unpack_at 8 0))
        (is ∙ ap (λ (u : Bytes). u ∷ []) (sym (ok-injective p)))
      ∙ when_value-some (unpack_at 8 0) (be 8 c) one_bits (omega (arith, length-be 8 c))
      ∙ ap (unpack_at 8 0) (sym (append-nil (be 8 c)))
      ∙ unpack_at-be 8 c [] small
]

found_priority :
    (n : ℕ) {vs : List Bytes}
    → sequence (when_priority (pos n) ++ []) ≡ ok vs
    → when_value (first vs) 128 (byte_at 0) ≡ ok n
found_priority n {vs} e = elim (Bool-cases (n == 128)) [
  | inl same ↦
      let e1 : sequence [] ≡ ok vs = sym (rw same refl) ∙ e in
      let nil : [] ≡ vs = ok-injective (unfold sequence in e1) in
      ap (λ (v : List Bytes). when_value (first v) 128 (byte_at 0)) (sym nil)
      ∙ ap ok (sym ((==_iff n 128).0 same))
  | inr differ ↦
      let e1 : sequence (pack_int false 1 (pos n) ∷ []) ≡ ok vs = sym (rw differ refl) ∙ e in
      let (b, p, is) = sequence_once (pack_int false 1 (pos n)) e1 in
      let (k, same, one) = pack_byte (pos n) p in
      ap (λ (v : List Bytes). when_value (first v) 128 (byte_at 0))
        (is ∙ ap (λ (u : Bytes). u ∷ []) one)
      ∙ cc
]

pub found_priorities :
    (z : ℤ) {vs : List Bytes}
    → sequence (when_priority z ++ []) ≡ ok vs
    → map_ok pos (when_value (first vs) 128 (byte_at 0)) ≡ ok z
found_priorities (pos n) e = ap (map_ok pos) (found_priority n e)
found_priorities (negsuc n) e =
    let (b, p, is) = sequence_once (pack_int false 1 (negsuc n)) e in unfold pack_int in cc
