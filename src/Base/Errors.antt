-- ===== src/Base/Errors.antt =====
-- Python's exceptions as values, and the chaining of calls that may raise.
use mathlib.Core.Path.{◌≡◌, refl}
use mathlib.Core.Logic.{◌⊎◌, inl, inr}
use mathlib.Core.Bool.{Bool, true, false}
use astra_sim_fsw.Base.Tests.{if◌then◌else◌}
use astra_sim_fsw.Base.Strings.{Text}

-- The exception classes that the tools raise or catch, with the message where it is used.
pub data Exception : Type 0 where
  value_error : Text → Exception
  key_error : Text → Exception
  runtime_error : Text → Exception
  os_error : Text → Exception
  struct_error attribute_error type_error assertion_error overflow_error : Exception
  keyboard_interrupt : Exception

pub data Result {ℓ} (A : Type ℓ) : Type ℓ where
  ok : A → Result A
  err : Exception → Result A

-- The call `next` on what `first` returned.
abbrev pub ◌>>=◌ {ℓ κ} : {X : Type ℓ} {Y : Type κ} → Result X → (X → Result Y) → Result Y
err raised >>= next = err raised
ok value >>= next = next value

infixl 5 ◌>>=◌
-- A chain that returned has returned at each of its calls.
pub >>=-ok {ℓ κ} :
    {X : Type ℓ} {Y : Type κ} (first : Result X) (next : X → Result Y) {y : Y}
    → (first >>= next) ≡ ok y
    → (x : X) × (first ≡ ok x) × (next x ≡ ok y)
>>=-ok (err raised) next returned = absurd (cc returned)
>>=-ok (ok value) next returned = (value, refl, returned)

-- A guard that raises was passed, if the code behind it returned.
pub guarded-ok {ℓ} :
    {A : Type ℓ} (b : Bool) (m : Result A) (e : Exception) {a : A}
    → (if b then m else err e) ≡ ok a
    → (b ≡ true) × (m ≡ ok a)
guarded-ok true m e h = (refl, h)
guarded-ok false m e h = cc

pub ok-injective {ℓ} : {A : Type ℓ} {a b : A} → ok a ≡ ok b → a ≡ b
ok-injective h = cc h

pub Result-cases {ℓ} :
    {A : Type ℓ} (r : Result A) → ((a : A) × (r ≡ ok a)) ⊎ ((e : Exception) × (r ≡ err e))
Result-cases (ok a) = inl (a, refl)
Result-cases (err e) = inr (e, refl)
