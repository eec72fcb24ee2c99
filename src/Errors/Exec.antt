-- ===== src/Errors/Exec.antt =====
-- Code that changes a state and may raise: what was written before a raise stays written, unless
-- a transaction rolls it back.
use mathlib.Core.Path.{◌≡◌, refl, ap}
use microservice_wallet_serv.Base.{Bool, true, false}
use microservice_wallet_serv.Errors.{PyError, Result, ok, err}

abbrev pub Exec : Type 0 → Type 0 → Type 0
Exec S A = S → Result A × S

module _ {S A : Type 0} where
  abbrev pub pure : A → Exec S A
  pure a s = (ok a, s)

  abbrev pub raise : PyError → Exec S A
  raise e s = (err e, s)

  abbrev pub lift : Result A → Exec S A
  lift r s = (r, s)

  abbrev pub gets : (S → A) → Exec S A
  gets f s = (ok (f s), s)

abbrev pub modify : {S : Type 0} → (S → S) → Exec S (Unit {0})
modify f s = (ok tt, f s)

-- `if b: raise e`
abbrev pub raise_if : {S : Type 0} → Bool → PyError → Exec S (Unit {0})
raise_if true e s = (err e, s)
raise_if false e s = (ok tt, s)

infixl 5 ◌>>=◌ ◌>>◌
abbrev pub ◌>>=◌ : {S A B : Type 0} → Exec S A → (A → Exec S B) → Exec S B
◌>>=◌ m f s = let (r, s') = m s in elim r [ ok a ↦ f a s' | err e ↦ (err e, s') ]

abbrev pub ◌>>◌ : {S B : Type 0} → Exec S (Unit {0}) → Exec S B → Exec S B
m >> k = m >>= λ _. k

-- `transaction.atomic`: an exception that leaves the block restores the state before it.
abbrev pub rollback : {S A : Type 0} → S → Result A × S → Result A × S
rollback s (ok a, s') = (ok a, s')
rollback s (err e, _) = (err e, s)

abbrev pub atomic : {S A : Type 0} → Exec S A → Exec S A
atomic m s = rollback s (m s)

-- `try: m` with one `except` clause, which is a function of the exception
abbrev pub catch : {S A : Type 0} → Exec S A → (PyError → Exec S A) → Exec S A
catch m h s = let (r, s') = m s in elim r [ ok a ↦ (ok a, s') | err e ↦ h e s' ]

-- A transaction that raises has changed nothing.
pub atomic_failed :
    {S A : Type 0} (m : Exec S A) (s : S) {e : PyError}
    → (atomic m s).0 ≡ err e
    → (atomic m s).1 ≡ s
atomic_failed {S} {A} m s h = helper (m s) h
  where
    helper : {e : PyError} (r : Result A × S) → (rollback s r).0 ≡ err e → (rollback s r).1 ≡ s
    helper (ok a, s') h = cc
    helper (err e, s') h = refl

-- a bind that went through, after a pure step
pub lift_ok :
    {S A B : Type 0} (r : Result A) (f : A → Exec S B) (s : S) {b : B}
    → ((lift r >>= f) s).0 ≡ ok b
    → (a : A) × (r ≡ ok a) × ((lift r >>= f) s ≡ f a s)
lift_ok (ok a) f s h = (a, refl, refl)
lift_ok (err e) f s h = cc

-- a bind that went through
pub bind_ok :
    {S A B : Type 0} (m : Exec S A) (f : A → Exec S B) (s : S) {b : B}
    → ((m >>= f) s).0 ≡ ok b
    → (a : A) × ((m s).0 ≡ ok a) × ((m >>= f) s ≡ f a (m s).1)
bind_ok {S} {A} {B} m f s h = helper (m s) h
  where
    continue : Result A × S → Result B × S
    continue (r, s') = elim r [ ok a ↦ f a s' | err e ↦ (err e, s') ]

    helper :
        {b : B} (p : Result A × S)
        → (continue p).0 ≡ ok b
        → (a : A) × (p.0 ≡ ok a) × (continue p ≡ f a p.1)
    helper (ok a, s') h = (a, refl, refl)
    helper (err e, s') h = cc

-- a transaction that went through is the code in it
pub atomic_ok :
    {S A : Type 0} (m : Exec S A) (s : S) {a : A} → (atomic m s).0 ≡ ok a → m s ≡ atomic m s
atomic_ok {S} {A} m s h = helper (m s) h
  where
    helper : {a : A} (r : Result A × S) → (rollback s r).0 ≡ ok a → r ≡ rollback s r
    helper (ok a, s') h = refl
    helper (err e, s') h = cc

-- a bind whose first step raised
pub bind_err :
    {S A B : Type 0} (m : Exec S A) (f : A → Exec S B) (s : S) {e : PyError} {s' : S}
    → m s ≡ (err e, s')
    → (m >>= f) s ≡ (err e, s')
bind_err {S} {A} {B} m f s h = ap continue h
  where
    continue : Result A × S → Result B × S
    continue (r, s') = elim r [ ok a ↦ f a s' | err e ↦ (err e, s') ]

-- a bind whose first step is known
pub bind_run :
    {S A B : Type 0} (m : Exec S A) (f : A → Exec S B) (s : S) {a : A} {s' : S}
    → m s ≡ (ok a, s')
    → (m >>= f) s ≡ f a s'
bind_run {S} {A} {B} m f s h = ap continue h
  where
    continue : Result A × S → Result B × S
    continue (r, t) = elim r [ ok x ↦ f x t | err e ↦ (err e, t) ]

-- a `try` that went through, where the handler raises
pub catch_ok :
    {S A : Type 0} (m : Exec S A) (h : PyError → PyError) (s : S) {a : A}
    → (catch m (λ x. raise (h x)) s).0 ≡ ok a
    → catch m (λ x. raise (h x)) s ≡ m s
catch_ok {S} {A} m h s went = helper (m s) went
  where
    continue : Result A × S → Result A × S
    continue (r, t) = elim r [ ok x ↦ (ok x, t) | err e ↦ (err (h e), t) ]

    helper : {a : A} (p : Result A × S) → (continue p).0 ≡ ok a → continue p ≡ p
    helper (ok x, t) went' = refl
    helper (err e, t) went' = cc

-- a `try` whose body is known to return
pub catch_run :
    {S A : Type 0} (m : Exec S A) (h : PyError → Exec S A) (s : S) {a : A} {s' : S}
    → m s ≡ (ok a, s')
    → catch m h s ≡ (ok a, s')
catch_run {S} {A} m h s went = ap continue went
  where
    continue : Result A × S → Result A × S
    continue (r, t) = elim r [ ok x ↦ (ok x, t) | err e ↦ h e t ]

-- a `try` whose one clause raises nothing
pub catch_all :
    {S A : Type 0} (m : Exec S A) (a : A) (s : S) → (b : A) × ((catch m (λ _. pure a) s).0 ≡ ok b)
catch_all {S} {A} m a s = helper (m s)
  where
    continue : Result A × S → Result A × S
    continue (r, t) = elim r [ ok x ↦ (ok x, t) | err e ↦ (ok a, t) ]

    helper : (p : Result A × S) → (b : A) × ((continue p).0 ≡ ok b)
    helper (ok x, t) = (x, refl)
    helper (err e, t) = (a, refl)

-- its state is that of the body, whether it raises or not
pub catch_all-state :
    {S A : Type 0} (m : Exec S A) (a : A) (s : S) → (catch m (λ _. pure a) s).1 ≡ (m s).1
catch_all-state {S} {A} m a s = helper (m s)
  where
    continue : Result A × S → Result A × S
    continue (r, t) = elim r [ ok x ↦ (ok x, t) | err e ↦ (ok a, t) ]

    helper : (p : Result A × S) → (continue p).1 ≡ p.1
    helper (ok x, t) = refl
    helper (err e, t) = refl
