-- ===== src/Platform/Results.antt =====
-- Errors as values: what the SDKs throw, and what the JavaScript operations that they use throw.
use crownfi_sei_swaps.Prelude.{
  ◌≡◌, refl, ap, ◌⊎◌, inl, inr, Bool, List, Option, none, some, [], ◌∷◌, if◌then◌else◌,
}
use crownfi_sei_swaps.Text.{Str}

pub data Error : Type 0 where
  -- `InvalidDenomError` and its two fields
  invalid_denom : Str → List Str → Error
  -- `MarketPairNotFoundError`
  pair_not_found : Str × Str → Error
  -- `UnsatisfiableSwapRouteError`
  unsatisfiable_route : Str → Str → Error
  -- `WrapperContractDenomError`
  wrapper_denom : Str → Str → Error
  -- `new Error(text)`
  message : Str → Error
  -- a property of `undefined` or `null` was read
  type_error : Error
  -- a `bigint` was divided by 0
  range_error : Error
  -- a contract query or a function of another package rejected
  rejected : Str → Error
  -- the model's own: the recursion was given too little fuel
  out_of_fuel : Error

pub data Result {ℓ} (A : Type ℓ) : Type ℓ where
  ok : A → Result A
  err : Error → Result A

pub Result-cases {ℓ} :
    {A : Type ℓ} (r : Result A) → ((a : A) × (r ≡ ok a)) ⊎ ((e : Error) × (r ≡ err e))
Result-cases (ok a) = inl (a, refl)
Result-cases (err e) = inr (e, refl)

abbrev value_or {ℓ} : {A : Type ℓ} → A → Result A → A
value_or d (ok a) = a
value_or d (err e) = d

pub ok-injective {ℓ} : {A : Type ℓ} {a b : A} → ok a ≡ ok b → a ≡ b
ok-injective {a = a} h = ap (value_or a) h

infixl 5 ◌>>=◌ ◌>>◌
abbrev pub ◌>>=◌ {ℓ κ} : {A : Type ℓ} {B : Type κ} → Result A → (A → Result B) → Result B
err e >>= next = err e
ok a >>= next = next a

-- `value!`, followed by the use of a property.
abbrev pub non_null {ℓ} : {A : Type ℓ} → Option A → Result A
non_null none = err type_error
non_null (some a) = ok a

-- A statement that returns nothing, and then another.
abbrev pub ◌>>◌ {ℓ} : {B : Type ℓ} → Result (Unit {0}) → Result B → Result B
m >> rest = m >>= λ _. rest

-- `array.map(f)` where `f` may throw.
unfoldable pub map_result {ℓ κ} :
    {A : Type ℓ} {B : Type κ} → (A → Result B) → List A → Result (List B)
map_result f [] = ok []
map_result f (x ∷ xs) = do ok ((← f x) ∷ (← map_result f xs))

-- `if (!condition) throw error`
abbrev pub guard : Bool → Error → Result (Unit {0})
guard condition error = if condition then ok tt else err error

pub >>=-eq-ok {ℓ κ} :
    {B : Type κ} {A : Type ℓ} (m : Result A) (next : A → Result B) {b : B}
    → (m >>= next) ≡ ok b
    → (a : A) × (m ≡ ok a) × (next a ≡ ok b)
>>=-eq-ok (err e) next h = cc
>>=-eq-ok (ok a) next h = (a, refl, h)

pub >>=_pair-eq-ok {ℓ} :
    {A B C : Type ℓ} (m : Result (A × B)) (f : A × B → Result C) {c : C}
    → (m >>= f) ≡ ok c
    → (a : A) × (b : B) × (m ≡ ok (a, b)) × (f (a, b) ≡ ok c)
>>=_pair-eq-ok (ok (a, b)) f h = (a, b, refl, h)
>>=_pair-eq-ok (err e) f h = cc
