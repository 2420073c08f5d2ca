-- ===== src/Trade/Client/Bind.antt =====
-- Laws of the state and error monad: what a sequence of two steps does, by the first step's result.
use hyperliquid_go.Base.{none, arith, some, Option, ◌≡◌, refl, ◌∙◌, Result, ok, err}
use hyperliquid_go.Trade.Client.{or_throw, checked, Code, Error, St, M, continue, ◌>>=◌}

continue_cases {κ} :
    {W A B : Type 0} (P : St W × Result Error B → Type κ) (r : St W × Result Error A)
    (f : A → M W B)
    → ((e : Error) → r.1 ≡ err e → P (r.0, err e))
    → ((a : A) → r.1 ≡ ok a → P (f a r.0))
    → P (continue r f)
continue_cases P (s, ok a) f failed went = went a refl
continue_cases P (s, err e) f failed went = failed e refl

-- Either the first step failed and the sequence ends there, or the second step runs.
pub bind_cases {κ} :
    {W A B : Type 0} (m : M W A) (f : A → M W B) (s : St W) (P : St W × Result Error B → Type κ)
    → ((e : Error) → (m s).1 ≡ err e → P ((m s).0, err e))
    → ((a : A) → (m s).1 ≡ ok a → P (f a (m s).0))
    → P ((m >>= f) s)
bind_cases m f s P failed went = continue_cases P (m s) f failed went

-- Posts nothing.
abbrev pub Quiet : {W A : Type 0} → M W A → Type 0
Quiet {W} m = (s : St W) → (m s).0.posted ≡ s.posted

pub bind-Quiet :
    {W A B : Type 0} (m : M W A) (f : A → M W B)
    → Quiet m
    → ((a : A) → Quiet (f a))
    → Quiet (m >>= f)
bind-Quiet m f qm qf s =
    bind_cases m f s (λ r. r.0.posted ≡ s.posted) (λ e h. qm s) (λ a h. qf a (m s).0 ∙ qm s)

-- A pure step that may fail leaves the state alone, and its value is the one it was given.
pub or_throw-ok :
    {W A : Type 0} (o : Option A) (e : Error) (s : St W) (a : A)
    → (or_throw o e s).1 ≡ ok a
    → (o ≡ some a) × ((or_throw o e s).0 ≡ s)
or_throw-ok none e s a h = cc
or_throw-ok (some b) e s a h = ground arith

pub or_throw-Quiet : {W A : Type 0} (o : Option A) (e : Error) → Quiet {W = W} (or_throw o e)
or_throw-Quiet none e s = refl
or_throw-Quiet (some a) e s = refl

pub checked-Quiet : {W A : Type 0} (r : Result Code A) → Quiet {W = W} (checked r)
checked-Quiet (ok a) s = refl
checked-Quiet (err c) s = refl

-- A sequence that succeeded: both steps did.
continue-ok :
    {W A B : Type 0} (r : St W × Result Error A) (f : A → M W B) (b : B)
    → (continue r f).1 ≡ ok b
    → (a : A) × (r.1 ≡ ok a) × ((f a r.0).1 ≡ ok b)
continue-ok (s, ok a) f b h = (a, refl, h)
continue-ok (s, err e) f b h = cc

pub bind-ok :
    {W A B : Type 0} (m : M W A) (f : A → M W B) (s : St W) (b : B)
    → ((m >>= f) s).1 ≡ ok b
    → (a : A) × ((m s).1 ≡ ok a) × ((f a (m s).0).1 ≡ ok b)
bind-ok m f s b h = continue-ok (m s) f b h

pub checked-ok :
    {W A : Type 0} (r : Result Code A) (s : St W) (a : A) → (checked r s).1 ≡ ok a → r ≡ ok a
checked-ok (ok b) s a h = cc
checked-ok (err c) s a h = cc
