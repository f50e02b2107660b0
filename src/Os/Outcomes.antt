-- ===== src/Os/Outcomes.antt =====
-- Reasoning about calls that may fail: what holds if the call returns, and what if it fails.
use kanek_extents_storage.Common.{◌≡◌, refl, subst, Error, Result, ok, err, Call, and_then}

pub data Ends {ℓ} {S : Type 0} {A : Type ℓ} (P : S → A → Type 0) (Q : S → Error → Type 0)
    : S × Result A → Type ℓ where
  returns : {s : S} {a : A} → P s a → Ends P Q (s, ok a)
  fails : {s : S} {e : Error} → Q s e → Ends P Q (s, err e)

pub Ends-and_then {ℓ κ} :
    {S : Type 0} {A : Type ℓ} {B : Type κ} {P : S → A → Type 0} {P' : S → B → Type 0}
    {Q : S → Error → Type 0} {r : S × Result A} {k : A → Call S B}
    → Ends P Q r
    → ((s : S) (a : A) → P s a → Ends P' Q (k a s))
    → Ends P' Q (and_then r k)
Ends-and_then (returns {s} {a} p) step = step s a p
Ends-and_then (fails q) step = fails q

pub Ends-mono {ℓ} :
    {S : Type 0} {A : Type ℓ} {P : S → A → Type 0} {Q Q' : S → Error → Type 0} {r : S × Result A}
    → Ends P Q r
    → ((s : S) (e : Error) → Q s e → Q' s e)
    → Ends P Q' r
Ends-mono (returns p) f = returns p
Ends-mono (fails {s} {e} q) f = fails (f s e q)

pub Ends-map {ℓ} :
    {S : Type 0} {A : Type ℓ} {P P' : S → A → Type 0} {Q Q' : S → Error → Type 0} {r : S × Result A}
    → Ends P Q r
    → ((s : S) (a : A) → P s a → P' s a)
    → ((s : S) (e : Error) → Q s e → Q' s e)
    → Ends P' Q' r
Ends-map (returns {s} {a} p) f g = returns (f s a p)
Ends-map (fails {s} {e} q) f g = fails (g s e q)

-- Where no failure is possible, the call returns.
pub Ends-sure {ℓ} :
    {S : Type 0} {A : Type ℓ} {P : S → A → Type 0} {Q : S → Error → Type 0} {r : S × Result A}
    → Ends P Q r
    → ((s : S) (e : Error) → ¬ Q s e)
    → (a : A) × (r.1 ≡ ok a) × P r.0 a
Ends-sure (returns {a} p) sure = (a, refl, p)
Ends-sure (fails {s} {e} q) sure = absurd (sure s e q)

pub Ends-ok {ℓ} :
    {S : Type 0} {A : Type ℓ} {P : S → A → Type 0} {Q : S → Error → Type 0} {r : S × Result A}
    {s : S} {a : A}
    → Ends P Q r
    → r ≡ (s, ok a)
    → P s a
Ends-ok {P} {Q} {s} {a} h e = returned (subst (Ends P Q) e h)
  where
    returned : Ends P Q (s, ok a) → P s a
    returned (returns p) = p
