-- ===== src/Privacy/Pseudonymizer/Ensures.antt =====
-- privacy/pseudonymizer.go: postconditions of the fallible steps.
use ao_eo.Privacy.Pseudonymizer.{Pass, passed, refused, stuck, and_then}

-- What holds of the value, if one is passed
abbrev pub Ensures : {W A : Type 0} → (A → Type 0) → Pass W A → Type 0
Ensures P (passed a) = P a
Ensures P (refused e w) = Unit {0}
Ensures P stuck = Unit {0}

pub Ensures-weaken :
    {W A : Type 0} (P Q : A → Type 0) (m : Pass W A)
    → Ensures P m
    → ((a : A) → P a → Q a)
    → Ensures Q m
Ensures-weaken P Q (passed a) h k = k a h
Ensures-weaken P Q (refused e w) h k = tt
Ensures-weaken P Q stuck h k = tt

pub Ensures-and_then :
    {W A B : Type 0} (P : A → Type 0) (Q : B → Type 0) (m : Pass W A) (f : A → Pass W B)
    → Ensures P m
    → ((a : A) → P a → Ensures Q (f a))
    → Ensures Q (and_then m f)
Ensures-and_then P Q (passed a) f h k = k a h
Ensures-and_then P Q (refused e w) f h k = tt
Ensures-and_then P Q stuck f h k = tt

pub Anything : {W A : Type 0} (m : Pass W A) → Ensures (λ (a : A). Unit {0}) m
Anything (passed a) = tt
Anything (refused e w) = tt
Anything stuck = tt
