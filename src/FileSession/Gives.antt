-- ===== src/FileSession/Gives.antt =====
-- Properties of what a call of src/server/file-session.ts returns, if it does not throw.
use connexin.Prelude.{◌≡◌, refl, Bool, true, false}
use connexin.Utf8.{Text}
use connexin.FileSession.Run.{
  FileRun, Outcome, done, threw, M, then_run, ◌>>=◌, or_run, catch, refuse_if,
}
use connexin.FileSession.Safety.{Holds, Anything}

-- Every result of the call has P.
abbrev pub Gives : {A : Type 0} → (A → Type 0) → M A → Type 0
Gives P m = (r : FileRun) → Holds P Anything (m r).0

pub bind-Gives :
    {A B : Type 0} (P : B → Type 0) (m : M A) (f : A → M B)
    → ((a : A) → Gives P (f a))
    → Gives P (m >>= f)
bind-Gives {A} {B} P m f k r = through (m r)
  where
    through : (x : Outcome A × FileRun) → Holds P Anything (then_run x f).0
    through (done a, s) = k a s
    through (threw message, s) = tt

pub refuse_if-Gives :
    {B : Type 0} (P : B → Type 0) (test : Bool) (message : Text) (f : Bool → M B)
    → (test ≡ false → (b : Bool) → Gives P (f b))
    → Gives P (refuse_if test message >>= f)
refuse_if-Gives P true message f k r = tt
refuse_if-Gives P false message f k r = k refl true r

pub catch-Gives :
    {A : Type 0} (P : A → Type 0) (m : M A) (handler : Text → M A)
    → Gives P m
    → ((message : Text) → Gives P (handler message))
    → Gives P (catch m handler)
catch-Gives {A} P m handler g k r = through (m r) (g r)
  where
    through :
        (x : Outcome A × FileRun) → Holds P Anything x.0 → Holds P Anything (or_run x handler).0
    through (done a, s) h = h
    through (threw message, s) h = k message s

-- With what the first call gives.
pub bind-Gives_both :
    {A B : Type 0} (Q : A → Type 0) (P : B → Type 0) (m : M A) (f : A → M B)
    → Gives Q m
    → ((a : A) → Q a → Gives P (f a))
    → Gives P (m >>= f)
bind-Gives_both {A} {B} Q P m f g k r = through (m r) (g r)
  where
    through : (x : Outcome A × FileRun) → Holds Q Anything x.0 → Holds P Anything (then_run x f).0
    through (done a, s) h = k a h s
    through (threw message, s) h = tt
