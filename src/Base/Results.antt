-- ===== src/Base/Results.antt =====
-- What a call of the program may end in, besides its value: the faults that C++ leaves undefined,
-- the waits that never end, and the exceptions that nothing catches.
use mathlib.Core.Path.{◌≡◌, refl, subst}
use mathlib.Core.Logic.{◌⊎◌, inl, inr}

pub data Fault : Type 0 where
  null_dereference buffer_overflow out_of_range empty_front deadlock endless : Fault
  uncaught_exception end_dereference uninitialised_read : Fault

pub data Result {ℓ} (A : Type ℓ) : Type ℓ where
  fault : Fault → Result A
  ok : A → Result A

module _ {ℓ κ} {A : Type ℓ} {B : Type κ} where
  infixl 5 ◌>>=◌
  abbrev pub ◌>>=◌ : Result A → (A → Result B) → Result B
  fault why >>= next = fault why
  ok value >>= next = next value

  -- Two laws of sequencing.
  pub >>=_congr :
      (call : Result A) {next later : A → Result B}
      → ((value : A) → next value ≡ later value)
      → (call >>= next) ≡ (call >>= later)
  >>=_congr (ok value) same = same value
  >>=_congr (fault why) same = refl

pub >>=_assoc {ℓ κ μ} :
    {A : Type ℓ} {B : Type κ} {C : Type μ} (call : Result A) (next : A → Result B)
    (last : B → Result C)
    → (call >>= next >>= last) ≡ (call >>= λ value. next value >>= last)
>>=_assoc (ok value) next last = refl
>>=_assoc (fault why) next last = refl

pub ok_inj {ℓ} : {A : Type ℓ} {a b : A} → ok a ≡ ok b → a ≡ b
ok_inj e = cc

pub fault-ne-ok {ℓ} : {A : Type ℓ} {a : A} {f : Fault} → fault f ≡ ok a → ⊥
fault-ne-ok e = cc

-- A property of the value, if the call ends without a fault.
abbrev pub Ends {ℓ κ} : {A : Type ℓ} → (A → Type κ) → Result A → Type κ
Ends P (ok value) = P value
Ends P (fault why) = Unit

pub >>=-Ends {ℓ κ μ} :
    {A : Type ℓ} {B : Type κ} (P : A → Type μ) (Q : B → Type μ) (call : Result A)
    (next : A → Result B)
    → Ends P call
    → ((value : A) → P value → Ends Q (next value))
    → Ends Q (call >>= next)
>>=-Ends P Q (ok value) next h rest = rest value h
>>=-Ends P Q (fault why) next h rest = tt

pub Ends-eq_ok {ℓ κ} :
    {A : Type ℓ} (P : A → Type κ) {call : Result A} {value : A}
    → call ≡ ok value
    → Ends P call
    → P value
Ends-eq_ok P e h = subst (Ends P) e h

pub Result-cases {ℓ} :
    {A : Type ℓ} (call : Result A)
    → ((value : A) × (call ≡ ok value)) ⊎ ((why : Fault) × (call ≡ fault why))
Result-cases (ok value) = inl (value, refl)
Result-cases (fault why) = inr (why, refl)

pub Ends-map {ℓ κ μ} :
    {A : Type ℓ} (P : A → Type κ) (Q : A → Type μ)
    → ((value : A) → P value → Q value)
    → (call : Result A) → Ends P call
    → Ends Q call
Ends-map P Q all (ok value) h = all value h
Ends-map P Q all (fault why) h = tt

pub Ends-all {ℓ κ} :
    {A : Type ℓ} (P : A → Type κ) (call : Result A) → ((value : A) → P value) → Ends P call
Ends-all P (ok value) all = all value
Ends-all P (fault why) all = tt

pub Ends-any {ℓ} : {A : Type ℓ} (call : Result A) → Ends (λ _. Unit {0}) call
Ends-any call = Ends-all (λ _. Unit {0}) call (λ _. tt)

pub Ends-self {ℓ} : {A : Type ℓ} (call : Result A) → Ends (λ value. call ≡ ok value) call
Ends-self (ok value) = refl
Ends-self (fault why) = tt
