-- ===== src/Py/Result.antt =====
-- A Python computation returns a value or raises. The messages of the exceptions are left out.
pub mod Ensures
use aicl.Common.{Bool, false, inl, inr, refl, true, ◌≡◌, ◌⊎◌}

-- The exceptions that the modelled code raises itself (SymbolError to EncodeError, the transport,
-- the SDK and the semantic errors), then those that the interpreter and its library raise.
-- `out_of_fuel` is no Python exception: a bounded model of a loop gave up.
pub data Exc : Type 0 where
  symbol_error : Exc
  header_error : Exc
  version_mismatch : Exc
  truncated_packet : Exc
  checksum_error : Exc
  encode_error : Exc
  semantic_error : Exc
  struct_error : Exc
  value_error : Exc
  type_error : Exc
  attribute_error : Exc
  index_error : Exc
  overflow_error : Exc
  unicode_error : Exc
  zero_division : Exc
  ring_full : Exc
  ring_empty : Exc
  transport_error : Exc
  channel_closed : Exc
  cancelled_error : Exc
  timeout_error : Exc
  aicl_error : Exc
  capability_error : Exc
  out_of_fuel : Exc

pub data Result {ℓ} (A : Type ℓ) : Type ℓ where
  ok : A → Result A
  err : Exc → Result A

abbrev pub map_ok {ℓ κ} : {A : Type ℓ} {B : Type κ} → (A → B) → Result A → Result B
map_ok f (ok a) = ok (f a)
map_ok f (err e) = err e

pub Result-cases {ℓ} :
    {A : Type ℓ} (r : Result A) → ((a : A) × (r ≡ ok a)) ⊎ ((e : Exc) × (r ≡ err e))
Result-cases (ok a) = inl (a, refl)
Result-cases (err e) = inr (e, refl)

infixl 5 ◌>>=◌ ◌>>◌
abbrev pub ◌>>=◌ {ℓ κ} : {A : Type ℓ} {C : Type κ} → Result A → (A → Result C) → Result C
err e >>= k = err e
ok a >>= k = k a

-- `if not test: raise e`
abbrev pub guard : Bool → Exc → Result (Unit {0})
guard false e = err e
guard true e = ok tt

abbrev pub ◌>>◌ {ℓ} : {B : Type ℓ} → Result (Unit {0}) → Result B → Result B
m >> k = m >>= λ _. k

-- Inversion of a successful bind.
pub >>=-eq-ok {ℓ κ} :
    {A : Type ℓ} {C : Type κ} (r : Result A) (k : A → Result C) {c : C}
    → (r >>= k) ≡ ok c
    → (a : A) × (r ≡ ok a) × (k a ≡ ok c)
>>=-eq-ok (err x) k e = cc
>>=-eq-ok (ok a) k e = (a, refl, e)

pub ok-injective {ℓ} : {A : Type ℓ} {a b : A} → ok a ≡ ok b → a ≡ b
ok-injective e = cc

pub map_ok-eq-ok {ℓ κ} :
    {A : Type ℓ} {B : Type κ} (f : A → B) (r : Result A) {b : B}
    → map_ok f r ≡ ok b
    → (a : A) × (r ≡ ok a) × (f a ≡ b)
map_ok-eq-ok f (ok a) e = (a, refl, ok-injective e)
map_ok-eq-ok f (err x) e = cc
