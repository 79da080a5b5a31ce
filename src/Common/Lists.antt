-- ===== src/Common/Lists.antt =====
-- Lists measured and cut by native numbers.
use Prim.Native.Nat.{ℕ, zero, suc, ◌+◌, ◌-◌, ◌≤◌, min}
use mathlib.Core.Path.{◌≡◌, refl, ap}
use mathlib.Core.List.{List, [], ◌∷◌, ◌++◌}
use mathlib.Core.Option.{Option, none, some}
use mathlib.Core.Bool.{Bool, true, false, ◌&&◌}
use aicl.Common.Tests.{◌==◌}
use native.Mathlib.Omega.{arith}

module _ {ℓ} {A : Type ℓ} where
  abbrev pub length : List A → ℕ
  length [] = 0
  length (x ∷ xs) = suc (length xs)

  abbrev pub take : ℕ → List A → List A
  take zero xs = []
  take (suc n) [] = []
  take (suc n) (x ∷ xs) = x ∷ take n xs

  abbrev pub drop : ℕ → List A → List A
  drop zero xs = xs
  drop (suc n) [] = []
  drop (suc n) (x ∷ xs) = drop n xs

  abbrev pub get_elem? : List A → ℕ → Option A
  get_elem? [] i = none
  get_elem? (x ∷ xs) zero = some x
  get_elem? (x ∷ xs) (suc i) = get_elem? xs i

  abbrev pub replicate : ℕ → A → List A
  replicate zero a = []
  replicate (suc n) a = a ∷ replicate n a

  pub length-append : (xs ys : List A) → length (xs ++ ys) ≡ length xs + length ys
  length-append [] ys = omega arith
  length-append (x ∷ xs) ys = omega (arith, length-append xs ys)

  pub length-take : (n : ℕ) (xs : List A) → length (take n xs) ≡ min n (length xs)
  length-take zero xs = omega arith
  length-take (suc n) [] = omega arith
  length-take (suc n) (x ∷ xs) = omega (arith, length-take n xs)

  pub length-drop : (n : ℕ) (xs : List A) → length (drop n xs) ≡ length xs - n
  length-drop zero xs = omega arith
  length-drop (suc n) [] = omega arith
  length-drop (suc n) (x ∷ xs) = omega (arith, length-drop n xs)

  pub take-append-drop : (n : ℕ) (xs : List A) → take n xs ++ drop n xs ≡ xs
  take-append-drop zero xs = refl
  take-append-drop (suc n) [] = refl
  take-append-drop (suc n) (x ∷ xs) = ap (λ t. x ∷ t) (take-append-drop n xs)

  -- The cut falls at the end of the first list.
  pub take-append : (n : ℕ) (xs ys : List A) → length xs ≡ n → take n (xs ++ ys) ≡ xs
  take-append zero [] ys h = refl
  take-append zero (x ∷ xs) ys h = absurd (omega arith)
  take-append (suc n) [] ys h = absurd (omega arith)
  take-append (suc n) (x ∷ xs) ys h = ap (λ t. x ∷ t) (take-append n xs ys (omega arith))

  pub drop-append : (n : ℕ) (xs ys : List A) → length xs ≡ n → drop n (xs ++ ys) ≡ ys
  drop-append zero [] ys h = refl
  drop-append zero (x ∷ xs) ys h = absurd (omega arith)
  drop-append (suc n) [] ys h = absurd (omega arith)
  drop-append (suc n) (x ∷ xs) ys h = drop-append n xs ys (omega arith)

  pub take_all : (n : ℕ) (xs : List A) → length xs ≡ n → take n xs ≡ xs
  take_all zero [] h = refl
  take_all zero (x ∷ xs) h = absurd (omega arith)
  take_all (suc n) [] h = absurd (omega arith)
  take_all (suc n) (x ∷ xs) h = ap (λ t. x ∷ t) (take_all n xs (omega arith))

  -- The cut falls inside the first list.
  pub take-append_le : (n : ℕ) (xs ys : List A) → n ≤ length xs → take n (xs ++ ys) ≡ take n xs
  take-append_le zero xs ys h = refl
  take-append_le (suc n) [] ys h = absurd (omega arith)
  take-append_le (suc n) (x ∷ xs) ys h = ap (λ t. x ∷ t) (take-append_le n xs ys (omega arith))

  pub drop-append_le :
      (n : ℕ) (xs ys : List A) → n ≤ length xs → drop n (xs ++ ys) ≡ drop n xs ++ ys
  drop-append_le zero xs ys h = refl
  drop-append_le (suc n) [] ys h = absurd (omega arith)
  drop-append_le (suc n) (x ∷ xs) ys h = drop-append_le n xs ys (omega arith)

  abbrev pub All {κ} : (A → Type κ) → List A → Type κ
  All P [] = Unit {κ}
  All P (x ∷ xs) = P x × All P xs

  pub All-append {κ} : (P : A → Type κ) (xs ys : List A) → All P xs → All P ys → All P (xs ++ ys)
  All-append P [] ys h k = k
  All-append P (x ∷ xs) ys h k = (h.0, All-append P xs ys h.1 k)

  pub All-take {κ} : (P : A → Type κ) (n : ℕ) (xs : List A) → All P xs → All P (take n xs)
  All-take P zero xs h = tt
  All-take P (suc n) [] h = tt
  All-take P (suc n) (x ∷ xs) h = (h.0, All-take P n xs h.1)

  pub All-drop {κ} : (P : A → Type κ) (n : ℕ) (xs : List A) → All P xs → All P (drop n xs)
  All-drop P zero xs h = h
  All-drop P (suc n) [] h = tt
  All-drop P (suc n) (x ∷ xs) h = All-drop P n xs h.1

  -- The cut falls in the second list.
  pub drop-append_ge :
      (j k i : ℕ) (xs ys : List A) → length xs ≡ k → j ≡ k + i → drop j (xs ++ ys) ≡ drop i ys
  drop-append_ge j k i [] ys h e = ap (λ n. drop n ys) (omega arith)
  drop-append_ge zero k i (x ∷ xs) ys h e = absurd (omega arith)
  drop-append_ge (suc j) k i (x ∷ xs) ys h e =
      drop-append_ge j (k - 1) i xs ys (omega arith) (omega arith)

  -- A part of the second list.
  pub drop-take-append :
      (k j n : ℕ) (xs ys : List A)
      → length xs ≡ k
      → j ≡ k + n
      → drop k (take j (xs ++ ys)) ≡ take n ys
  drop-take-append zero j n [] ys h e = ap (λ (m : ℕ). take m ys) (omega arith)
  drop-take-append zero j n (x ∷ xs) ys h e = absurd (omega arith)
  drop-take-append (suc k) j n [] ys h e = absurd (omega arith)
  drop-take-append (suc k) zero n (x ∷ xs) ys h e = absurd (omega arith)
  drop-take-append (suc k) (suc j) n (x ∷ xs) ys h e =
      drop-take-append k j n xs ys (omega arith) (omega arith)

  pub append-eq-nil : (xs ys : List A) → xs ++ ys ≡ [] → xs ≡ []
  append-eq-nil [] ys e = refl
  append-eq-nil (x ∷ xs) ys e = cc

  pub append-cancel : (xs ys zs : List A) → xs ++ ys ≡ xs ++ zs → ys ≡ zs
  append-cancel [] ys zs e = e
  append-cancel (x ∷ xs) ys zs e = append-cancel xs ys zs (cc)

  -- Two cuts of one list: the longer front starts with the shorter.
  pub append-longer :
      (front xs back ys : List A)
      → length xs ≤ length front
      → front ++ back ≡ xs ++ ys
      → (more : List A) × (front ≡ xs ++ more)
  append-longer front [] back ys h e = (front, refl)
  append-longer [] (x ∷ xs) back ys h e = absurd (omega arith)
  append-longer (a ∷ front) (x ∷ xs) back ys h e =
      let (more, is) = append-longer front xs back ys (omega arith) (cc) in (more, cc)

-- Equality of byte strings and of texts.
abbrev pub same_list : List ℕ → List ℕ → Bool
same_list [] [] = true
same_list (a ∷ s) (b ∷ t) = a == b && same_list s t
same_list _ _ = false

pub same_list_refl : (s : List ℕ) → same_list s s ≡ true
same_list_refl [] = refl
same_list_refl (a ∷ s) = ground (arith, same_list_refl s)

pub same_list_sym : (s t : List ℕ) → same_list s t ≡ same_list t s
same_list_sym [] [] = refl
same_list_sym [] (b ∷ t) = refl
same_list_sym (a ∷ s) [] = refl
same_list_sym (a ∷ s) (b ∷ t) = ground (arith, same_list_sym s t)

pub same_list→eq : (s t : List ℕ) → same_list s t ≡ true → s ≡ t
same_list→eq [] [] h = refl
same_list→eq [] (b ∷ t) h = cc
same_list→eq (a ∷ s) [] h = cc
same_list→eq (a ∷ s) (b ∷ t) h = ground (arith, same_list→eq s t)
