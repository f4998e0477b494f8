-- ===== src/Server/Outcomes.antt =====
-- What holds of the value or of the error of a result, through a chain of checks.
use hetero_paged_infer.Prelude.{◌≡◌, refl, Bool, true, false}
use hetero_paged_infer.Prelude.Results.{Result, ok, err, fail_if, ◌>>=◌, ◌>>◌}

pub data Outcome {E A : Type 0} (P : E → Type 0) (Q : A → Type 0) : Result E A → Type 0 where
  gives : {a : A} → Q a → Outcome P Q (ok a)
  fails : {e : E} → P e → Outcome P Q (err e)

abbrev pub Anything : {A : Type 0} → A → Type 0
Anything a = Unit {0}

pub Outcome-bind :
    {E A B : Type 0} (P : E → Type 0) (R : A → Type 0) (Q : B → Type 0) (m : Result E A)
    (f : A → Result E B)
    → Outcome P R m
    → ((a : A) → R a → Outcome P Q (f a))
    → Outcome P Q (m >>= f)
Outcome-bind P R Q m f (gives h) g = g _ h
Outcome-bind P R Q m f (fails h) g = fails h

-- After a check.
pub fail_if-Outcome :
    {E B : Type 0} {P : E → Type 0} (Q : B → Type 0) (b : Bool) (e : E) (k : Result E B)
    → P e
    → (b ≡ false → Outcome P Q k)
    → Outcome P Q (fail_if b e >> k)
fail_if-Outcome Q true e k h g = fails h
fail_if-Outcome Q false e k h g = g refl

pub of_error :
    {E A : Type 0} {P : E → Type 0} {m : Result E A}
    → ((x : E) → m ≡ err x → P x)
    → Outcome P Anything m
of_error {m = ok a} h = gives tt
of_error {m = err x} h = fails (h x refl)

pub error_of_outcome :
    {E A : Type 0} {P : E → Type 0} {Q : A → Type 0} {m : Result E A} {x : E}
    → Outcome P Q m
    → m ≡ err x
    → P x
error_of_outcome (gives h) e = cc
error_of_outcome {P = P} {x = x} (fails {e = y} h) e = let same : y ≡ x = cc in rw (← same) h

pub value_of_outcome :
    {E A : Type 0} {P : E → Type 0} {Q : A → Type 0} {m : Result E A} {a : A}
    → Outcome P Q m
    → m ≡ ok a
    → Q a
value_of_outcome {Q = Q} {a = a} (gives {a = b} h) e = let same : b ≡ a = cc in rw (← same) h
value_of_outcome (fails h) e = cc
