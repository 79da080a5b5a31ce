-- ===== src/Py/Result/Ensures.antt =====
-- A postcondition: the computation did not run out of fuel, and `P` holds of its value if it has one.
use aicl.Common.{Bool, false, if◌then◌else◌, subst, true, ◌≡◌, ◌≢◌}
use aicl.Py.Result.{Exc, Result, err, map_ok, ok, out_of_fuel, symbol_error, unicode_error, ◌>>=◌}

pub data Ensures {ℓ κ} {A : Type ℓ} (P : A → Type κ) : Result A → Type (ℓ ⊔ κ) where
  holds : {a : A} → P a → Ensures P (ok a)
  raises : {x : Exc} → x ≢ out_of_fuel → Ensures P (err x)

module _ {ℓ κ} {A : Type ℓ} {P : A → Type κ} where
  pub Ensures-ok : {r : Result A} {a : A} → Ensures P r → r ≡ ok a → P a
  Ensures-ok (holds h) e = subst P (cc) h
  Ensures-ok (raises n) e = cc

  pub Ensures-ne : {r : Result A} → Ensures P r → r ≢ err out_of_fuel
  Ensures-ne (holds h) = λ e. cc
  Ensures-ne (raises n) = λ e. n (cc)

  pub Ensures-if :
      (b : Bool) {x y : Result A} → Ensures P x → Ensures P y → Ensures P (if b then x else y)
  Ensures-if true h k = h
  Ensures-if false h k = k

  pub Ensures-bind {ℓ' κ'} :
      {B : Type ℓ'} {Q : B → Type κ'} {r : Result A} {f : A → Result B}
      → Ensures P r
      → ((a : A) → P a → Ensures Q (f a))
      → Ensures Q (r >>= f)
  Ensures-bind (holds {a} h) k = k a h
  Ensures-bind (raises n) k = raises n

  pub weaken {κ'} :
      {Q : A → Type κ'} {r : Result A} → ((a : A) → P a → Q a) → Ensures P r → Ensures Q r
  weaken k (holds h) = holds (k _ h)
  weaken k (raises n) = raises n

  pub unicode_raises : Ensures P (err unicode_error)
  unicode_raises = raises (λ e. cc)

  pub symbol_raises : Ensures P (err symbol_error)
  symbol_raises = raises (λ e. cc)

  pub map_ok-Ensures {ℓ' κ'} :
      {B : Type ℓ'} {Q : B → Type κ'} {r : Result A} (f : A → B)
      → Ensures P r
      → ((a : A) → P a → Q (f a))
      → Ensures Q (map_ok f r)
  map_ok-Ensures f (holds {a} h) k = holds (k a h)
  map_ok-Ensures f (raises n) k = raises n
