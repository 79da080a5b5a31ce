-- ===== src/Py/Json/Consumed.antt =====
-- What each scanner of `loads` leaves of the text.
use aicl.Common.{
  Bool, Bool-cases, Option, [], arith, drop, false, if◌then◌else◌, inl, inr, leb, length,
  length-drop, ltb, none, refl, same_list, some, subst, suc, take, true, zero, ℕ, ◌&&◌, ◌*◌, ◌+◌,
  ◌<◌, ◌==◌, ◌^◌, ◌||◌, ◌∷◌, ◌≡◌, ◌≤◌,
}
use aicl.Py.Any.{Any, codes, of_bool, of_float, of_none}
use aicl.Py.Decimal.{is_digit}
use aicl.Py.Json.Load.{
  after_whole, at_end, both_parts, expect, literal, number_of, scan_number, separator,
}
use aicl.Py.Json.Scan.{
  after_hex, hex_value, is_space, join_low, join_surrogates, scan_escape, scan_exponent,
  scan_fraction, scan_hex, scan_signed, scan_string, scan_whole, simple_escape, skip_space,
  span_digits, when_digits,
}
use aicl.Py.Result.{Result, err, map_ok, ok, ok-injective, value_error, ◌>>=◌}
use aicl.Py.Utf8.{Str}

-- The scan yields a value with a property, or raises ValueError.
pub data Scans {A : Type 0} (P : A → Type 0) : Result A → Type 0 where
  scanned : {a : A} → P a → Scans P (ok a)
  refused : Scans P (err value_error)

module _ {A : Type 0} {P : A → Type 0} where
  pub Scans-ok : {r : Result A} {a : A} → Scans P r → r ≡ ok a → P a
  Scans-ok (scanned h) e = subst P (ok-injective e) h
  Scans-ok refused e = cc

  pub Scans-if : (b : Bool) {x y : Result A} → Scans P x → Scans P y → Scans P (if b then x else y)
  Scans-if true h k = h
  Scans-if false h k = k

  pub Scans-bind :
      {B : Type 0} {Q : B → Type 0} {r : Result A} {f : A → Result B}
      → Scans P r
      → ((a : A) → P a → Scans Q (f a))
      → Scans Q (r >>= f)
  Scans-bind (scanned {a} h) k = k a h
  Scans-bind refused k = refused

  pub Scans-weaken : {Q : A → Type 0} {r : Result A} → ((a : A) → P a → Q a) → Scans P r → Scans Q r
  Scans-weaken k (scanned h) = scanned (k _ h)
  Scans-weaken k refused = refused

  pub map_ok-Scans :
      {B : Type 0} {Q : B → Type 0} {r : Result A} (f : A → B)
      → Scans P r
      → ((a : A) → P a → Q (f a))
      → Scans Q (map_ok f r)
  map_ok-Scans f (scanned {a} h) k = scanned (k a h)
  map_ok-Scans f refused k = refused

pub Scans-some :
    {A B : Type 0} {P : B → Type 0} (o : Option A) (f : A → Result B)
    → ((a : A) → Scans P (f a))
    → Scans P (elim o [ none ↦ err value_error | some a ↦ f a ])
Scans-some none f h = refused
Scans-some (some a) f h = h a

-- Less of the text, or no more of it, is left.
abbrev pub Less : {A : Type 0} → ℕ → A × Str → Type 0
Less n r = length r.1 < n

abbrev pub NoMore : {A : Type 0} → ℕ → A × Str → Type 0
NoMore n r = length r.1 ≤ n

pub length-skip_space : (s : Str) → length (skip_space s) ≤ length s
unfolding skip_space
length-skip_space [] = omega arith
length-skip_space (c ∷ s) = elim (Bool-cases (is_space c)) [
  | inl e ↦ rw e (omega (arith, length-skip_space s))
  | inr e ↦ rw e (omega arith)
]

pub scan_hex_total : (n acc : ℕ) (s : Str) → Scans (NoMore (length s)) (scan_hex n acc s)
scan_hex_total zero acc s = scanned (omega arith)
scan_hex_total (suc n) acc [] = refused
scan_hex_total (suc n) acc (c ∷ s) =
    Scans-some (hex_value c) (λ v. scan_hex n (acc * 16 + v) s)
      (λ v. Scans-weaken (λ r h. omega (arith, h)) (scan_hex_total n (acc * 16 + v) s))

pub length-join_low :
    (high : ℕ) (t s : Str) (r : Result (ℕ × Str))
    → length s ≤ length t
    → Scans (NoMore (length s)) r
    → length ((join_low high t r).1) ≤ length t
length-join_low high t s (ok (low, rest)) h k =
    elim (Bool-cases (leb 0xDC00 low && leb low 0xDFFF)) [
      | inl e ↦ rw e (omega (arith, Scans-ok k refl))
      | inr e ↦ rw e (omega arith)
    ]
length-join_low high t s (err e) h k = omega arith

pub length-join_surrogates : (high : ℕ) (s : Str) → length ((join_surrogates high s).1) ≤ length s
length-join_surrogates high [] = omega arith
length-join_surrogates high (c ∷ []) = omega arith
length-join_surrogates high (c ∷ d ∷ s) = elim (Bool-cases (c == 0x5C && d == 0x75)) [
  | inl e ↦
      rw e
        (length-join_low high (c ∷ d ∷ s) s (scan_hex 4 0 s) (omega arith) (scan_hex_total 4 0 s))
  | inr e ↦ rw e (omega arith)
]

pub length-after_hex : (c : ℕ) (s : Str) → length ((after_hex (c, s)).1) ≤ length s
length-after_hex c s = elim (Bool-cases (leb 0xD800 c && leb c 0xDBFF)) [
  | inl e ↦ rw e (length-join_surrogates c s)
  | inr e ↦ rw e (omega arith)
]

pub scan_escape_total : (s : Str) → Scans (Less (length s)) (scan_escape s)
unfolding scan_escape
scan_escape_total [] = refused
scan_escape_total (c ∷ s) =
    Scans-if (c == 0x75)
      (map_ok-Scans after_hex (scan_hex_total 4 0 s)
        (λ r h. omega (arith, h, length-after_hex r.0 r.1)))
      (Scans-some (simple_escape c) (λ v. ok (v, s)) (λ v. scanned (omega arith)))

pub scan_string_total :
    (fuel : ℕ) (s : Str) → length s < fuel → Scans (Less (length s)) (scan_string fuel s)
unfolding scan_string
scan_string_total zero s h = absurd (omega arith)
scan_string_total (suc fuel) [] h = refused
scan_string_total (suc fuel) (c ∷ s) h = Scans-if (c == 0x22) (scanned (omega arith)) (
    Scans-if (c == 0x5C)
      (Scans-bind (scan_escape_total s) (λ p k.
        map_ok-Scans (λ q. (p.0 ∷ q.0, q.1)) (scan_string_total fuel p.1 (omega (arith, h, k)))
          (λ q l. omega (arith, k, l))))
      (Scans-if (ltb c 0x20) refused (
        map_ok-Scans (λ q. (c ∷ q.0, q.1)) (scan_string_total fuel s (omega (arith, h)))
          (λ q l. omega (arith, l)))))

pub length-when_digits :
    (head s t : Str) (r : Str × Str)
    → length s ≤ length t
    → length r.1 ≤ length t
    → length ((when_digits head s r).1) ≤ length t
length-when_digits head s t ([], rest) h k = h
length-when_digits head s t (c ∷ digits, rest) h k = k

pub length-span_digits : (s : Str) → length ((span_digits s).1) ≤ length s
unfolding span_digits
length-span_digits [] = omega arith
length-span_digits (c ∷ s) = elim (Bool-cases (is_digit c)) [
  | inl e ↦ rw e (omega (arith, length-span_digits s))
  | inr e ↦ rw e (omega arith)
]

pub length-scan_fraction : (s : Str) → length ((scan_fraction s).1) ≤ length s
unfolding scan_fraction
length-scan_fraction [] = omega arith
length-scan_fraction (c ∷ s) = elim (Bool-cases (c == 0x2E)) [
  | inl e ↦ rw e (
      length-when_digits (c ∷ []) (c ∷ s) (c ∷ s) (span_digits s) (omega arith)
        (omega (arith, length-span_digits s)))
  | inr e ↦ rw e (omega arith)
]

pub length-scan_signed : (e : ℕ) (s : Str) → length ((scan_signed e s).1) ≤ length (e ∷ s)
unfolding scan_signed
length-scan_signed e [] = omega arith
length-scan_signed e (c ∷ s) = elim (Bool-cases (c == 0x2B || c == 0x2D)) [
  | inl h ↦ rw h (
      length-when_digits (e ∷ c ∷ []) (e ∷ c ∷ s) (e ∷ c ∷ s) (span_digits s) (omega arith)
        (omega (arith, length-span_digits s)))
  | inr h ↦ rw h (
      length-when_digits (e ∷ []) (e ∷ c ∷ s) (e ∷ c ∷ s) (span_digits (c ∷ s)) (omega arith)
        (omega (arith, length-span_digits (c ∷ s))))
]

pub length-scan_exponent : (s : Str) → length ((scan_exponent s).1) ≤ length s
unfolding scan_exponent
length-scan_exponent [] = omega arith
length-scan_exponent (c ∷ s) = elim (Bool-cases (c == 0x65 || c == 0x45)) [
  | inl e ↦ rw e (length-scan_signed c s)
  | inr e ↦ rw e (omega arith)
]

module _ (float_of : Str → ℕ) where
  pub number_of_total :
      (n : ℕ) (minus : Bool) (whole : Str) (p : Str × Str)
      → length p.1 < n
      → Scans (Less n) (number_of float_of minus whole p)
  number_of_total n minus whole ([], rest) h = scanned h
  number_of_total n minus whole (c ∷ tail, rest) h = scanned h

  pub after_whole_total :
      (n : ℕ) (minus : Bool) (whole s : Str)
      → length s < n
      → Scans (Less n) (after_whole float_of minus (some (whole, s)))
  unfolding after_whole
  after_whole_total n minus whole s h =
      number_of_total n minus whole (both_parts float_of (scan_fraction s))
        (omega (arith, length-scan_fraction s, length-scan_exponent ((scan_fraction s).1)))

  pub whole_total :
      (n : ℕ) (minus : Bool) (s : Str)
      → length s ≤ n
      → Scans (Less n) (after_whole float_of minus (scan_whole s))
  unfolding scan_whole after_whole
  whole_total n minus [] h = refused
  whole_total n minus (c ∷ s) h = elim (Bool-cases (c == 0x30)) [
    | inl e ↦ rw e (after_whole_total n minus (c ∷ []) s (omega arith))
    | inr e ↦ elim (Bool-cases (is_digit c)) [
      | inl d ↦
          rw (e, d)
            (after_whole_total n minus (c ∷ (span_digits s).0) ((span_digits s).1)
              (omega (arith, length-span_digits s)))
      | inr d ↦ rw (e, d) refused
    ]
  ]

  pub scan_number_total : (s : Str) → Scans (Less (length s)) (scan_number float_of s)
  unfolding scan_number
  scan_number_total [] = refused
  scan_number_total (c ∷ s) =
      Scans-if (c == 0x2D) (whole_total (length (c ∷ s)) true s (omega arith))
        (whole_total (length (c ∷ s)) false (c ∷ s) (omega arith))

  pub literal_total :
      (c : ℕ) (word : Str) (v : Any) (s : Str) → Scans (Less (length s)) (literal (c ∷ word) v s)
  literal_total c word v [] = refused
  literal_total c word v (d ∷ s) =
      Scans-if (same_list (take (length (c ∷ word)) (d ∷ s)) (c ∷ word))
        (scanned (omega (arith, length-drop (length word) s))) refused

  pub separator_total : (close : ℕ) (s : Str) → Scans (Less (length s)) (separator float_of close s)
  separator_total close [] = refused
  separator_total close (c ∷ s) =
      Scans-if (c == close) (scanned (omega arith))
        (Scans-if (c == 0x2C) (scanned (omega (arith, length-skip_space s))) refused)

  pub expect_total : (x : ℕ) (s : Str) → Scans (λ t. length t < length s) (expect float_of x s)
  expect_total x [] = refused
  expect_total x (c ∷ s) = Scans-if (c == x) (scanned (omega arith)) refused

  pub words_total :
      (c : ℕ) (s : Str)
      → Scans (Less (length (c ∷ s))) (
          if c == 0x6E
          then literal (codes "null") of_none (c ∷ s)
          else if c == 0x74
          then literal (codes "true") (of_bool true) (c ∷ s)
          else if c == 0x66
          then literal (codes "false") (of_bool false) (c ∷ s)
          else if c == 0x4E
          then literal (codes "NaN") (of_float (0x7FF8 * 2 ^ 48)) (c ∷ s)
          else if c == 0x49
          then literal (codes "Infinity") (of_float (2047 * 2 ^ 52)) (c ∷ s)
          else if same_list (take 9 (c ∷ s)) (codes "-Infinity")
          then ok (of_float (2 ^ 63 + 2047 * 2 ^ 52), drop 9 (c ∷ s))
          else scan_number float_of (c ∷ s))
  words_total c s = Scans-if (c == 0x6E) (literal_total 0x6E (codes "ull") of_none (c ∷ s)) (
      Scans-if (c == 0x74) (literal_total 0x74 (codes "rue") (of_bool true) (c ∷ s)) (
        Scans-if (c == 0x66) (literal_total 0x66 (codes "alse") (of_bool false) (c ∷ s)) (
          Scans-if (c == 0x4E)
            (literal_total 0x4E (codes "aN") (of_float (0x7FF8 * 2 ^ 48)) (c ∷ s))
            (Scans-if (c == 0x49)
              (literal_total 0x49 (codes "nfinity") (of_float (2047 * 2 ^ 52)) (c ∷ s))
              (Scans-if (same_list (take 9 (c ∷ s)) (codes "-Infinity"))
                (scanned (omega (arith, length-drop 8 s))) (scan_number_total (c ∷ s)))))))

  pub at_end_total : (v : Any) (s : Str) → Scans (λ w. Unit {0}) (at_end float_of (v, s))
  at_end_total v [] = scanned tt
  at_end_total v (c ∷ s) = refused
