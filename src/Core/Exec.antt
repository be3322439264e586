-- ===== src/Core/Exec.antt =====
-- Code that changes state and may raise. What was changed before a raise stays changed, so the state
-- comes back beside the exception too.
use async_job_processing_pip.Prelude.{◌≡◌, refl, ap}
use async_job_processing_pip.Core.Errors.{Raised, Result, ok, err}

abbrev pub Exec : Type 0 → Type 0 → Type 0
Exec S A = S → Result A × S

abbrev pub pure : {S A : Type 0} → A → Exec S A
pure a s = (ok a, s)

abbrev pub lift : {S A : Type 0} → Result A → Exec S A
lift r s = (r, s)

abbrev pub continue : {S A B : Type 0} → Result A → (A → Exec S B) → Exec S B
continue (ok a) f s = f a s
continue (err x) f s = (err x, s)

infixl 5 ◌>>=◌ ◌>>◌
abbrev pub ◌>>=◌ : {S A B : Type 0} → Exec S A → (A → Exec S B) → Exec S B
◌>>=◌ m f s = let (r, s') = m s in continue r f s'

abbrev pub ◌>>◌ : {S A B : Type 0} → Exec S A → Exec S B → Exec S B
first >> second = first >>= λ _. second

abbrev pub handle : {S A : Type 0} → Result A → (Raised → Exec S A) → Exec S A
handle (ok a) h s = (ok a, s)
handle (err x) h s = h x s

-- `try: m except Exception as exc: h(exc)`
abbrev pub catch : {S A : Type 0} → Exec S A → (Raised → Exec S A) → Exec S A
catch m h s = let (r, s') = m s in handle r h s'

-- After a call that returned comes the next one.
pub >>-ok :
    {S A B : Type 0} (first : Exec S A) (second : Exec S B) {s s' : S} {a : A}
    → first s ≡ (ok a, s')
    → (first >> second) s ≡ second s'
>>-ok first second h = ap (λ p. continue p.0 (λ _. second) p.1) h

-- After a call that raised comes nothing.
pub >>-err :
    {S A B : Type 0} (first : Exec S A) (second : Exec S B) {s s' : S} {x : Raised}
    → first s ≡ (err x, s')
    → (first >> second) s ≡ (err x, s')
>>-err first second h = ap (λ p. continue p.0 (λ _. second) p.1) h

returned :
    {S A B : Type 0} (f : A → Exec S B) (p : Result A × S) {b : B} {v : S}
    → continue p.0 f p.1 ≡ (ok b, v)
    → (a : A) × (s : S) × (p ≡ (ok a, s)) × (f a s ≡ (ok b, v))
returned f (ok a, s) h = (a, s, refl, h)
returned f (err x, s) h = cc

-- Where two calls return, each of them does.
pub >>=-inv :
    {S A B : Type 0} (first : Exec S A) (f : A → Exec S B) (s : S) {b : B} {v : S}
    → (first >>= f) s ≡ (ok b, v)
    → (a : A) × (s' : S) × (first s ≡ (ok a, s')) × (f a s' ≡ (ok b, v))
>>=-inv first f s h = returned f (first s) h

pub >>-inv :
    {S A B : Type 0} (first : Exec S A) (second : Exec S B) (s : S) {b : B} {v : S}
    → (first >> second) s ≡ (ok b, v)
    → (a : A) × (s' : S) × (first s ≡ (ok a, s')) × (second s' ≡ (ok b, v))
>>-inv first second s h = returned (λ _. second) (first s) h
