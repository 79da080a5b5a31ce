-- ===== src/Semantic/FastCodec/Exact.antt =====
-- aicl/semantic/fast_codec.py: the actions that arrive exactly as they were sent.
use aicl.Common.{
  ==_iff, Bool, [], ap, arith, false, length, negsuc, pos, refl, replicate, subst, suc, sym, true,
  zero, ℕ, ℤ, ◌&&◌, ◌+◌, ◌<◌, ◌==◌, ◌^◌, ◌∙◌, ◌≡◌, ◌≤◌,
}
use aicl.Py.Any.{of_float, of_int, of_str}
use aicl.Py.Float.{of_thousandths, times_thousand}
use aicl.Py.Result.{Result, err, map_ok, ok, ok-injective}
use aicl.Py.Struct.{Bytes}
use aicl.Py.Utf8.{Str}
use aicl.Semantic.Action.{ModelAction}
use aicl.Semantic.Action.RoundTrip.{IsTyped}
use aicl.Semantic.FastCodec.{decode_action, decode_correlation, encode_action, encode_correlation}
use aicl.Semantic.FastCodec.RoundTrip.{DictsJson, decode_action-encode_action}
use aicl.Semantic.Wire.{at_most, low_32, thousandths}

is_back : ℤ → ℕ → Bool
is_back (pos m) n = m == n
is_back (negsuc m) n = false

reads_back : Result ℤ → ℕ → Bool
reads_back (ok z) n = is_back z n
reads_back (err e) n = false

-- The thousandths from `n` to `n + k` are cut to themselves.
all_from : ℕ → ℕ → Bool
all_from zero n = reads_back (times_thousand (of_thousandths n)) n
all_from (suc k) n = reads_back (times_thousand (of_thousandths n)) n && all_from k (suc n)

all_to_1000 : all_from 1000 0 ≡ true
unfolding all_from reads_back is_back times_thousand of_thousandths
all_to_1000 = refl

reads_back-ok : (r : Result ℤ) (n : ℕ) → reads_back r n ≡ true → r ≡ ok (pos n)
unfolding reads_back is_back
reads_back-ok (ok (pos m)) n h = ap (λ x. ok (pos x)) ((==_iff m n).0 h)
reads_back-ok (ok (negsuc m)) n h = cc
reads_back-ok (err e) n h = cc

both_true : (a b : Bool) → (a && b) ≡ true → (a ≡ true) × (b ≡ true)
both_true a b h = ground (arith, h)

-- The double of `x` thousandths is cut to `x`.
Back : ℕ → Type 0
Back x = reads_back (times_thousand (of_thousandths x)) x ≡ true

all_from-Back : (k m i x : ℕ) → m + i ≡ x → i ≤ k → all_from k m ≡ true → Back x
unfolding all_from Back
all_from-Back zero m i x e small h = subst Back (omega (arith, e, small)) h
all_from-Back (suc k) m zero x e small h =
    subst Back (omega (arith, e))
      (both_true (reads_back (times_thousand (of_thousandths m)) m) (all_from k (suc m)) h).0
all_from-Back (suc k) m (suc i) x e small h =
    all_from-Back k (suc m) i x (omega (arith, e)) (omega (arith, small))
      (both_true (reads_back (times_thousand (of_thousandths m)) m) (all_from k (suc m)) h).1

pub times_thousand-of_thousandths :
    (n : ℕ) → n ≤ 1000 → times_thousand (of_thousandths n) ≡ ok (pos n)
unfolding Back
times_thousand-of_thousandths n small =
    reads_back-ok (times_thousand (of_thousandths n)) n
      (all_from-Back 1000 0 n n (omega arith) small all_to_1000)

size_of : ℤ → ℕ
size_of (pos n) = n
size_of (negsuc n) = n

pos-injective : {m n : ℕ} → pos m ≡ pos n → m ≡ n
unfolding size_of
pos-injective h = ap size_of h

zeros_read : decode_correlation (replicate 16 0) ≡ ok []
unfolding decode_correlation
zeros_read = refl

module _ (float_repr : ℕ → Str) (float_of : Str → ℕ) where
  -- If `encode_action` succeeds on an action whose fields have their types, whose dicts are read back
  -- from JSON, whose confidence is the double of a number of thousandths up to 1000, whose deadline is
  -- below 2 ^ 32 and which has no correlation id, `decode_action` yields the same action.
  pub decode_action-encode_action_exact :
      (session : Bytes) (a : ModelAction) (n d : ℕ) {wire : Bytes}
      → IsTyped a
      → DictsJson float_repr float_of a
      → length session ≡ 16
      → n ≤ 1000
      → a.confidence ≡ of_float (of_thousandths n)
      → d < 2 ^ 32
      → a.deadline_ms ≡ of_int (pos d)
      → a.correlation_id ≡ of_str []
      → encode_action float_repr float_of session a ≡ ok wire
      → decode_action float_repr float_of wire ≡ ok a
  unfolding encode_correlation
  decode_action-encode_action_exact session a n d typ js size few conf small dead none_given packs =
      let (n2, d2, b, k, nis, dis, bis, kis, dec) =
        decode_action-encode_action float_repr float_of session a typ js size packs in
      let n_same : n2 ≡ n = pos-injective (
        ok-injective (
          sym nis
          ∙ ap (λ v. map_ok at_most (thousandths v)) conf
          ∙ ap (map_ok at_most) (times_thousand-of_thousandths n few)
          ∙ ap (λ x. ok (pos x)) (omega (arith, few)))) in
      let d_same : d2 ≡ d =
        ok-injective (sym dis ∙ ap low_32 dead ∙ ap ok (omega (arith, small))) in
      let b_same : replicate 16 0 ≡ b =
        ok-injective (sym (ap encode_correlation none_given) ∙ bis) in
      let k_same : k ≡ [] =
        ok-injective (sym kis ∙ ap decode_correlation (sym b_same) ∙ zeros_read) in
      dec ∙ (λ j. ok (record a {
        confidence = (ap (λ x. of_float (of_thousandths x)) n_same ∙ sym conf) j;
        correlation_id = (ap of_str k_same ∙ sym none_given) j;
        deadline_ms = (ap (λ x. of_int (pos x)) d_same ∙ sym dead) j;
      }))
