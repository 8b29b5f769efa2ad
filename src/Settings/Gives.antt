-- ===== src/Settings/Gives.antt =====
-- Properties of what a reading step of src/server/config.ts gives, if it gives no error.
use connexin.Prelude.{Bool, true, false, if◌then◌else◌}
use connexin.Settings.Values.{Setting, ok, failed, ◌>>=◌}

-- What a setting has, if it is accepted.
abbrev pub Gives : {A : Type 0} → (A → Type 0) → Setting A → Type 0
Gives P (ok a) = P a
Gives P (failed e) = Unit

pub bind-Gives :
    {A B : Type 0} (Q : A → Type 0) (P : B → Type 0) (m : Setting A) (f : A → Setting B)
    → Gives Q m
    → ((a : A) → Q a → Gives P (f a))
    → Gives P (m >>= f)
bind-Gives Q P (ok a) f q k = k a q
bind-Gives Q P (failed e) f q k = tt

abbrev pub Anything : {A : Type 0} → A → Type 0
Anything a = Unit

pub Gives-Anything : {A : Type 0} (m : Setting A) → Gives Anything m
Gives-Anything (ok a) = tt
Gives-Anything (failed e) = tt

pub if-Gives :
    {A : Type 0} (P : A → Type 0) (b : Bool) (x y : Setting A)
    → Gives P x
    → Gives P y
    → Gives P (if b then x else y)
if-Gives P true x y h k = h
if-Gives P false x y h k = k
