-- ===== src/Bin/Packet/Fields.antt =====
-- aicl/bin/codec_packet.py: the operands that the extensions add, and the values found by tag.
use aicl.Common.{
  ==_iff, ==_refl, All, All-append, Bool-cases, List, [], ap, arith, false, if◌then◌else◌, inl, inr,
  refl, true, ℕ, ◌++◌, ◌==◌, ◌∙◌, ◌∷◌, ◌≡◌,
}
use aicl.Bin.Packet.{Field, Packet, extension_fields, run_field, run_fields}
use aicl.Bin.Symbol.{Symbol, bytes, is_vendor, raw_of, symbol, tag_of, value_of}
use aicl.Py.Result.{>>=-eq-ok, Result, ok, ok-injective, ◌>>=◌}
use aicl.Py.Struct.{Bytes}

-- The bytes of the operands with a tag, in order.
abbrev pub raws_of : ℕ → List Symbol → List Bytes
raws_of t [] = []
raws_of t (s ∷ ss) = if tag_of s == t then raw_of (value_of s) ∷ raws_of t ss else raws_of t ss

pub raws_of-append :
    (t : ℕ) (ss ts : List Symbol) → raws_of t (ss ++ ts) ≡ raws_of t ss ++ raws_of t ts
raws_of-append t [] ts = refl
raws_of-append t (s ∷ ss) ts = ground (arith, raws_of-append t ss ts)

-- The computations of all statements with a tag.
abbrev pub gather : ℕ → List Field → List (Result Bytes)
gather t [] = []
gather t ((tag, rs) ∷ fs) = if tag == t then rs ++ gather t fs else gather t fs

-- Their values, if none raises.
unfoldable pub sequence : List (Result Bytes) → Result (List Bytes)
sequence [] = ok []
sequence (r ∷ rs) = do b ← r; bs ← sequence rs; ok (b ∷ bs)

sequence-append :
    (rs qs : List (Result Bytes)) {bs cs : List Bytes}
    → sequence rs ≡ ok bs
    → sequence qs ≡ ok cs
    → sequence (rs ++ qs) ≡ ok (bs ++ cs)
unfolding sequence
sequence-append [] qs {bs} {cs} e k = let nil : [] ≡ bs = ok-injective e in rw (← nil) k
sequence-append (r ∷ rs) qs {bs} {cs} e k =
    let (b, p, e1) = >>=-eq-ok r _ e in
    let (bs', q, e2) = >>=-eq-ok (sequence rs) _ e1 in
    let whole : b ∷ bs' ≡ bs = ok-injective e2 in rw (← whole, p, sequence-append rs qs q k)

-- An operand that `ext` makes.
pub record IsExtension (s : Symbol) : Type 0 where
  pub tagged : is_vendor (tag_of s) ≡ true
  pub bytes_only : s ≡ symbol (tag_of s) (bytes (raw_of (value_of s)))

run_field-sequence :
    (tag : ℕ) (rs : List (Result Bytes)) {ss : List Symbol}
    → run_field tag rs ≡ ok ss
    → (sequence rs ≡ ok (raws_of tag ss))
      × ((t : ℕ) → (tag == t) ≡ false → raws_of t ss ≡ [])
      × (is_vendor tag ≡ true → All IsExtension ss)
unfolding run_field sequence
run_field-sequence tag [] {ss} e =
    let nil : [] ≡ ss = ok-injective e in rw (← nil) (refl, λ t n. refl, λ v. tt)
run_field-sequence tag (r ∷ rs) {ss} e =
    let (b, p, e1) = >>=-eq-ok r _ e in
    let (more, q, e2) = >>=-eq-ok (run_field tag rs) _ e1 in
    let whole : symbol tag (bytes b) ∷ more ≡ ss = ok-injective e2 in
    let (seq, other, ext) = run_field-sequence tag rs q in
    rw (← whole) (
      rw (p, seq, ==_refl tag),
      λ t n. rw n (other t n),
      λ v. (record { tagged = v; bytes_only = refl }, ext v),
    )

pub run_fields-sequence :
    (t : ℕ) (fs : List Field) {ss : List Symbol}
    → run_fields fs ≡ ok ss
    → sequence (gather t fs) ≡ ok (raws_of t ss)
unfolding run_fields
run_fields-sequence t [] {ss} e =
    let nil : [] ≡ ss = ok-injective e in rw (← nil) (unfold sequence in refl)
run_fields-sequence t ((tag, rs) ∷ fs) {ss} e =
    let (here, p, e1) = >>=-eq-ok (run_field tag rs) _ e in
    let (there, q, e2) = >>=-eq-ok (run_fields fs) _ e1 in
    let whole : here ++ there ≡ ss = ok-injective e2 in
    let (seq, other, _) = run_field-sequence tag rs p in
    let rest = run_fields-sequence t fs q in
    rw (← whole, raws_of-append t here there)
      (elim (Bool-cases (tag == t)) [
        | inl same ↦
            let is : tag ≡ t = (==_iff tag t).0 same in
            rw same
              (sequence-append rs (gather t fs) (seq ∙ ap (λ (u : ℕ). ok (raws_of u here)) is) rest)
        | inr differ ↦ rw (differ, other t differ) rest
      ])

pub run_fields-IsExtension :
    (fs : List Field) {ss : List Symbol}
    → All (λ f. is_vendor f.0 ≡ true) fs
    → run_fields fs ≡ ok ss
    → All IsExtension ss
unfolding run_fields
run_fields-IsExtension [] {ss} h e = let nil : [] ≡ ss = ok-injective e in rw (← nil) tt
run_fields-IsExtension ((tag, rs) ∷ fs) {ss} h e =
    let (here, p, e1) = >>=-eq-ok (run_field tag rs) _ e in
    let (there, q, e2) = >>=-eq-ok (run_fields fs) _ e1 in
    let whole : here ++ there ≡ ss = ok-injective e2 in
    let (_, _, ext) = run_field-sequence tag rs p in
    rw (← whole) (All-append IsExtension here there (ext h.0) (run_fields-IsExtension fs h.1 q))

-- The tags of `_append_extensions` are all in the vendor range.
pub extension_fields_vendor : (p : Packet) → All (λ f. is_vendor f.0 ≡ true) (extension_fields p)
unfolding extension_fields
extension_fields_vendor p = (
  refl,
  (
    refl,
    (
      refl,
      (
        refl,
        (
          refl,
          (
            refl,
            (
              refl,
              (
                refl,
                (
                  refl,
                  (
                    refl,
                    (
                      refl,
                      (
                        refl,
                        (
                          refl,
                          (
                            refl,
                            (
                              refl,
                              (refl, (refl, (refl, (refl, (refl, (refl, (refl, (refl, tt)))))))),
                            ),
                          ),
                        ),
                      ),
                    ),
                  ),
                ),
              ),
            ),
          ),
        ),
      ),
    ),
  ),
)
