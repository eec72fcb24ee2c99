-- ===== src/Service/Atomic.antt =====
-- Code that changes nothing when it raises, and code that never changes anything.
use microservice_wallet_serv.Base.{◌≡◌, refl, ◌∙◌}
use microservice_wallet_serv.Errors.{PyError, Result, ok, err}
use microservice_wallet_serv.Errors.Exec.{Exec, pure, raise, catch, ◌>>=◌}

-- code that raises has changed nothing
unfoldable pub IsAtomic : {S A : Type 0} → Exec S A → Type 0
IsAtomic {S} m = (s : S) (e : PyError) → (m s).0 ≡ err e → (m s).1 ≡ s

-- code that changes nothing
unfoldable pub IsReader : {S A : Type 0} → Exec S A → Type 0
IsReader {S} m = (s : S) → (m s).1 ≡ s

module _ {S : Type 0} where
  pub IsAtomic-bind :
      {A B : Type 0} (m : Exec S A) (f : A → Exec S B)
      → IsReader m
      → ((a : A) → IsAtomic (f a))
      → IsAtomic (m >>= f)
  unfolding IsAtomic IsReader
  IsAtomic-bind {A} {B} m f reads rest s e h = helper (m s) (reads s) h
    where
      continue : Result A × S → Result B × S
      continue (r, s') = elim r [ ok a ↦ f a s' | err x ↦ (err x, s') ]

      helper : (p : Result A × S) → p.1 ≡ s → (continue p).0 ≡ err e → (continue p).1 ≡ s
      helper (ok a, s') same raised = rest a s' e raised ∙ same
      helper (err x, s') same raised = same

  -- the handlers of exceptions here raise again
  pub IsAtomic-catch :
      {A : Type 0} (m : Exec S A) (h : PyError → PyError)
      → IsAtomic m
      → IsAtomic (catch m λ x. raise (h x))
  unfolding IsAtomic
  IsAtomic-catch {A} m h safe s e raised = helper (m s) (safe s) raised
    where
      continue : Result A × S → Result A × S
      continue (r, s') = elim r [ ok a ↦ (ok a, s') | err x ↦ (err (h x), s') ]

      helper :
          (p : Result A × S)
          → ((x : PyError) → p.0 ≡ err x → p.1 ≡ s)
          → (continue p).0 ≡ err e
          → (continue p).1 ≡ s
      helper (ok a, s') safe' raised' = cc
      helper (err x, s') safe' raised' = safe' x refl

  pub IsReader-bind :
      {A B : Type 0} (m : Exec S A) (f : A → Exec S B)
      → IsReader m
      → ((a : A) → IsReader (f a))
      → IsReader (m >>= f)
  unfolding IsReader
  IsReader-bind {A} {B} m f reads rest s = helper (m s) (reads s)
    where
      continue : Result A × S → Result B × S
      continue (r, s') = elim r [ ok a ↦ f a s' | err x ↦ (err x, s') ]

      helper : (p : Result A × S) → p.1 ≡ s → (continue p).1 ≡ s
      helper (ok a, s') same = rest a s' ∙ same
      helper (err x, s') same = same

  pub IsReader-catch :
      {A : Type 0} (m : Exec S A) (h : PyError → Exec S A)
      → IsReader m
      → ((x : PyError) → IsReader (h x))
      → IsReader (catch m h)
  unfolding IsReader
  IsReader-catch {A} m h reads handles s = helper (m s) (reads s)
    where
      continue : Result A × S → Result A × S
      continue (r, s') = elim r [ ok a ↦ (ok a, s') | err x ↦ h x s' ]

      helper : (p : Result A × S) → p.1 ≡ s → (continue p).1 ≡ s
      helper (ok a, s') same = same
      helper (err x, s') same = handles x s' ∙ same

  -- a result computed after atomic code
  pub IsAtomic-map :
      {A B : Type 0} (m : Exec S A) (f : A → B) → IsAtomic m → IsAtomic (m >>= λ a. pure (f a))
  unfolding IsAtomic
  IsAtomic-map {A} {B} m f safe s e raised = helper (m s) (safe s) raised
    where
      continue : Result A × S → Result B × S
      continue (r, s') = elim r [ ok a ↦ (ok (f a), s') | err x ↦ (err x, s') ]

      helper :
          (p : Result A × S)
          → ((x : PyError) → p.0 ≡ err x → p.1 ≡ s)
          → (continue p).0 ≡ err e
          → (continue p).1 ≡ s
      helper (ok a, s') safe' raised' = cc
      helper (err x, s') safe' raised' = safe' x refl
