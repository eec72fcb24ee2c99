-- ===== src/Handler/Wrapping.antt =====
-- Which exceptions leave the methods of WalletCommandHandler.
use microservice_wallet_serv.Base.{
  ◌≡◌, refl, inl, inr, true, String, Option, some, if◌then◌else◌, Bool-cases,
}
use microservice_wallet_serv.Base.Text.{Text}
use microservice_wallet_serv.Errors.{
  Uuid, PyError, Result, ok, err, wallet_domain, is_wallet_domain_error, is_wallet_not_found,
}
use microservice_wallet_serv.Errors.Exec.{Exec, catch, raise, ◌>>=◌, ◌>>◌}
use microservice_wallet_serv.Decimal.{Decimal}
use microservice_wallet_serv.Queries.{WalletView}
use microservice_wallet_serv.Handler.{CommandService, wrap, fetch, safe_fetch_view}
use microservice_wallet_serv.Handler

-- no exception, or a WalletDomainError
unfoldable pub IsDomainOnly : {A : Type 0} → Result A → Type 0
IsDomainOnly (ok a) = Unit
IsDomainOnly (err e) = is_wallet_domain_error e ≡ true

-- code that raises WalletDomainErrors only, in every state
unfoldable pub IsSafe : {S A : Type 0} → Exec S A → Type 0
unfolding IsDomainOnly
IsSafe {S} m = (s : S) → IsDomainOnly (m s).0

module _ {S : Type 0} where
  IsSafe-catch :
      {A : Type 0} (m : Exec S A) (h : PyError → Exec S A)
      → ((e : PyError) → IsSafe (h e))
      → IsSafe (catch m h)
  unfolding IsSafe IsDomainOnly
  IsSafe-catch {A} m h safe s = helper (m s)
    where
      continue : Result A × S → Result A × S
      continue (r, s') = elim r [ ok a ↦ (ok a, s') | err e ↦ h e s' ]

      helper : (p : Result A × S) → IsDomainOnly (continue p).0
      helper (ok a, s') = tt
      helper (err e, s') = safe e s'

  IsSafe-bind :
      {A B : Type 0} (m : Exec S A) (f : A → Exec S B)
      → IsSafe m
      → ((a : A) → IsSafe (f a))
      → IsSafe (m >>= f)
  unfolding IsSafe IsDomainOnly
  IsSafe-bind {A} {B} m f first rest s = helper (m s) (first s)
    where
      continue : Result A × S → Result B × S
      continue (r, s') = elim r [ ok a ↦ f a s' | err e ↦ (err e, s') ]

      helper : (p : Result A × S) → IsDomainOnly p.0 → IsDomainOnly (continue p).0
      helper (ok a, s') _ = rest a s'
      helper (err e, s') h = h

  wrap-IsSafe : {A : Type 0} (message : String) (m : Exec S A) → IsSafe (wrap message m)
  unfolding wrap IsSafe IsDomainOnly is_wallet_domain_error
  wrap-IsSafe message m =
      IsSafe-catch m
        (λ e. if is_wallet_domain_error e then raise e else raise (wallet_domain message))
        λ e s. elim (Bool-cases (is_wallet_domain_error e)) [
          | inl same ↦ rw same same
          | inr not_same ↦ rw not_same refl
        ]

  fetch-IsSafe : (missing failed : String) (m : Exec S WalletView) → IsSafe (fetch missing failed m)
  unfolding fetch IsSafe IsDomainOnly is_wallet_domain_error
  fetch-IsSafe missing failed m =
      IsSafe-catch m
        (λ e.
          if is_wallet_not_found e
          then raise (wallet_domain missing)
          else raise (wallet_domain failed))
        λ e s. elim (Bool-cases (is_wallet_not_found e)) [
          | inl same ↦ rw same refl
          | inr not_same ↦ rw not_same refl
        ]

module _ {S : Type 0} (commands : CommandService S)
    (get_wallet : Option Uuid → Exec S WalletView) where
  view-IsSafe : (id : Option Uuid) → IsSafe (safe_fetch_view commands get_wallet id)
  unfolding safe_fetch_view
  view-IsSafe id = fetch-IsSafe _ _ _

  -- a command, wrapped, and the view after it
  command-IsSafe :
      (message : String) (m : Exec S (Unit {0})) (id : Option Uuid)
      → IsSafe (wrap message m >> safe_fetch_view commands get_wallet id)
  command-IsSafe message m id = IsSafe-bind _ _ (wrap-IsSafe message m) λ _. view-IsSafe id

  -- Whatever the command service and the query service raise, the only exceptions that leave the
  -- nine methods of the handler are WalletDomainErrors, from every state and for all arguments.
  pub methods-IsSafe :
      (user wallet reference : Option Uuid) (currency reason : Text) (amount : Decimal)
      → IsSafe (Handler.create_wallet commands get_wallet user currency wallet)
        × IsSafe (Handler.deposit commands get_wallet wallet amount reference)
        × IsSafe (Handler.withdraw commands get_wallet wallet amount reference)
        × IsSafe (Handler.pay_with_wallet commands get_wallet wallet amount reference)
        × IsSafe (Handler.refund commands get_wallet wallet amount reference)
        × IsSafe (Handler.adjustment commands get_wallet wallet amount reason reference)
        × IsSafe (Handler.suspend_wallet commands get_wallet wallet)
        × IsSafe (Handler.activate_wallet commands get_wallet wallet)
        × IsSafe (Handler.close_wallet commands get_wallet wallet)
  unfolding Handler.create_wallet Handler.deposit Handler.withdraw Handler.pay_with_wallet
      Handler.refund Handler.adjustment Handler.suspend_wallet Handler.activate_wallet
      Handler.close_wallet
  methods-IsSafe user wallet reference currency reason amount = (
    IsSafe-bind (wrap "Failed to create wallet" (commands.create_wallet wallet user currency)) _
        (wrap-IsSafe _ _) (λ id. fetch-IsSafe _ _ (get_wallet (some id))),
    command-IsSafe _ _ wallet,
    command-IsSafe _ _ wallet,
    command-IsSafe _ _ wallet,
    command-IsSafe _ _ wallet,
    command-IsSafe _ _ wallet,
    command-IsSafe _ _ wallet,
    command-IsSafe _ _ wallet,
    command-IsSafe _ _ wallet,
  )
