-- ===== src/Common/Results.antt =====
-- The return codes of include/kes/kes_types.h, and functions that change a state and may fail.
use mathlib.Core.Path.{◌≡◌}
use native.Mathlib.Omega.{arith}

-- KES_ERROR_INVALID (-1) to KES_ERROR_BUSY (-8), in the order of the codes.
pub data Error : Type 0 where
  invalid nomem notfound exists io nospace corrupt busy : Error

-- KES_SUCCESS with the out parameters, or an error code.
pub data Result {ℓ} (A : Type ℓ) : Type ℓ where
  ok : A → Result A
  err : Error → Result A

abbrev pub Status : Type 0
Status = Result (Unit {0})

abbrev pub success : Status
success = ok tt

-- A call on a state `S`: the state after it and its outcome.
abbrev pub Call {ℓ} : Type 0 → Type ℓ → Type ℓ
Call S A = S → S × Result A

-- The state changes that a failed call has made are kept.
abbrev pub and_then {ℓ κ} :
    {S : Type 0} {A : Type ℓ} {B : Type κ} → S × Result A → (A → Call S B) → S × Result B
and_then (s, ok a) k = k a s
and_then (s, err e) k = (s, err e)

infixl 5 ◌>>=◌ ◌>>◌
abbrev pub ◌>>=◌ {ℓ κ} :
    {S : Type 0} {A : Type ℓ} {B : Type κ} → Call S A → (A → Call S B) → Call S B
◌>>=◌ m k s = and_then (m s) k

abbrev pub ◌>>◌ {ℓ} : {S : Type 0} {B : Type ℓ} → Call S (Unit {0}) → Call S B → Call S B
m >> k = m >>= λ _. k

abbrev pub return {ℓ} : {S : Type 0} {A : Type ℓ} → A → Call S A
return a s = (s, ok a)

abbrev pub fail {ℓ} : {S : Type 0} {A : Type ℓ} → Error → Call S A
fail e s = (s, err e)

pub and_then_ok {ℓ κ} :
    {S : Type 0} {A : Type ℓ} {B : Type κ} (r : S × Result A) (k : A → Call S B) {a : A}
    → r.1 ≡ ok a
    → and_then r k ≡ k a r.0
and_then_ok (s, ok b) k h = ground arith
and_then_ok (s, err e) k h = cc

pub and_then_err {ℓ κ} :
    {S : Type 0} {A : Type ℓ} {B : Type κ} (r : S × Result A) (k : A → Call S B) {e : Error}
    → r.1 ≡ err e
    → and_then r k ≡ (r.0, err e)
and_then_err (s, ok b) k h = cc
and_then_err (s, err e) k h = ground arith
