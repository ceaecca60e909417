-- ===== src/Exec.antt =====
-- Methods that change an object and may raise. What was written before a raise stays written, so
-- the state comes back beside the error too.
use mathlib.Core.Path.{subst}
use mathlib.Core.Bool.{Bool, true, false}
use mathlib.Core.Option.{Option, none, some}
use mvp_master.Base.{◌≡◌, refl, ap, ◌⊎◌, inl, inr, ⊤, if◌then◌else◌}

pub data Result {ℓ κ} (E : Type ℓ) (A : Type κ) : Type (ℓ ⊔ κ) where
  ok : A → Result E A
  err : E → Result E A

abbrev pub Exec : Type 0 → Type 0 → Type 0 → Type 0
Exec E S A = S → Result E A × S

module _ {E S A : Type 0} where
  abbrev pub pure : A → Exec E S A
  pure a s = (ok a, s)

  abbrev pub raise : E → Exec E S A
  raise e s = (err e, s)

  abbrev pub gets : (S → A) → Exec E S A
  gets f s = (ok (f s), s)

  abbrev pub lift : Result E A → Exec E S A
  lift r s = (r, s)

  -- `if x is None: raise e`
  abbrev pub or_raise : Option A → E → Exec E S A
  or_raise none e = raise e
  or_raise (some a) e = pure a

module _ {E S : Type 0} where
  abbrev pub modify : (S → S) → Exec E S ⊤
  modify f s = (ok tt, f s)

  abbrev pub raise_if : Bool → E → Exec E S ⊤
  raise_if b e s = (if b then err e else ok tt, s)

-- Whether a call raised.
abbrev pub raised : {E A : Type 0} → Result E A → Bool
raised (ok a) = false
raised (err e) = true

infixl 5 ◌>>=◌ ◌>>◌
abbrev pub ◌>>=◌ : {E S A B : Type 0} → Exec E S A → (A → Exec E S B) → Exec E S B
◌>>=◌ m f s = let (r, s') = m s in elim r [ ok a ↦ f a s' | err e ↦ (err e, s') ]

abbrev pub ◌>>◌ : {E S A B : Type 0} → Exec E S A → Exec E S B → Exec E S B
m >> k = m >>= λ _. k

pub Result-cases :
    {E A : Type 0} (r : Result E A) → ((a : A) × (r ≡ ok a)) ⊎ ((e : E) × (r ≡ err e))
Result-cases (ok a) = inl (a, refl)
Result-cases (err e) = inr (e, refl)

-- A step that succeeds hands its value and its state on.
pub bind-ok :
    {E S A B : Type 0} (m : Exec E S A) (f : A → Exec E S B) (s : S) (a : A) (t : S)
    → m s ≡ (ok a, t)
    → (m >>= f) s ≡ f a t
bind-ok m f s a t h = ap (λ r. ((λ _. r) >>= f) s) h

-- What holds after a step that fails, and after what follows one that succeeds, holds after both.
module _ {E S A B : Type 0} (Q : Result E B × S → Type 0) (f : A → Exec E S B) (s : S) where
  after_step :
      (r : Result E A) (t : S)
      → ((e : E) → (r ≡ err e) → Q (err e, t))
      → ((a : A) → (r ≡ ok a) → Q (f a t))
      → Q (((λ _. (r, t)) >>= f) s)
  after_step (ok a) t failed went = went a refl
  after_step (err e) t failed went = failed e refl

  pub bind-step :
      (m : Exec E S A)
      → ((e : E) (t : S) → m s ≡ (err e, t) → Q (err e, t))
      → ((a : A) (t : S) → m s ≡ (ok a, t) → Q (f a t))
      → Q ((m >>= f) s)
  bind-step m failed went =
      after_step (m s).0 (m s).1 (λ e p. failed e (m s).1 (cc)) (λ a p. went a (m s).1 (cc))

-- A property of the state that holds after a step and is kept by what follows holds after both.
pub bind-holds :
    {E S A B : Type 0} (Q : S → Type 0) (m : Exec E S A) (f : A → Exec E S B) (s : S)
    → Q (m s).1
    → ((a : A) (t : S) → Q t → Q (f a t).1)
    → Q ((m >>= f) s).1
bind-holds Q m f s h later =
    bind-step (λ out. Q out.1) f s m (λ e t p. subst (λ out. Q out.1) p h)
      (λ a t p. later a t (subst (λ out. Q out.1) p h))

-- A call for its effect: the error it raised, if any, and the state after it.
abbrev done : {E A : Type 0} → Result E A → Result E ⊤
done (ok a) = ok tt
done (err e) = err e

abbrev pub discard : {E S A : Type 0} → Exec E S A → Exec E S ⊤
discard m s = let (r, s') = m s in (done r, s')
