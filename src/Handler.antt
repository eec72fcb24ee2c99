-- ===== src/Handler.antt =====
-- application/wallet/handlers/wallet_command_handler.py over the command service and the query
-- service, which are the handler's constructor arguments.
pub mod Wrapping
mod Tests
use microservice_wallet_serv.Base.{String, Bool, true, false, Option, none, some, if◌then◌else◌}
use microservice_wallet_serv.Base.Text.{Text}
use microservice_wallet_serv.Errors.{
  Uuid, PyError, wallet_domain, is_wallet_domain_error, is_wallet_not_found,
}
use microservice_wallet_serv.Errors.Exec.{Exec, pure, raise, catch, ◌>>=◌, ◌>>◌}
use microservice_wallet_serv.Decimal.{Decimal}
use microservice_wallet_serv.Queries.{WalletView}

-- `WalletCommandServiceInterface`, over some state
pub record CommandService (S : Type 0) : Type 0 where
  pub create_wallet : Option Uuid → Option Uuid → Text → Exec S Uuid
  pub deposit : Option Uuid → Decimal → Option Uuid → Exec S (Unit {0})
  pub withdraw : Option Uuid → Decimal → Option Uuid → Exec S (Unit {0})
  pub pay_with_wallet : Option Uuid → Decimal → Option Uuid → Exec S (Unit {0})
  pub refund : Option Uuid → Decimal → Option Uuid → Exec S (Unit {0})
  pub adjustment : Option Uuid → Decimal → Text → Option Uuid → Exec S (Unit {0})
  pub suspend_wallet : Option Uuid → Exec S (Unit {0})
  pub activate_wallet : Option Uuid → Exec S (Unit {0})
  pub close_wallet : Option Uuid → Exec S (Unit {0})

-- `except WalletDomainError: raise`, then `except Exception: raise WalletDomainError(…)`
unfoldable pub wrap : {S A : Type 0} → String → Exec S A → Exec S A
wrap message m =
    catch m λ e. if is_wallet_domain_error e then raise e else raise (wallet_domain message)

-- a fetch of the view whose failure becomes one of two bare WalletDomainErrors
unfoldable pub fetch : {S : Type 0} → String → String → Exec S WalletView → Exec S WalletView
fetch missing failed m = catch m λ e.
    if is_wallet_not_found e then raise (wallet_domain missing) else raise (wallet_domain failed)

module _ {S : Type 0} (commands : CommandService S)
    (get_wallet : Option Uuid → Exec S WalletView) where
  -- `_safe_fetch_view`
  unfoldable pub safe_fetch_view : Option Uuid → Exec S WalletView
  unfolding fetch
  safe_fetch_view id =
      fetch "Wallet not found after successful command"
        "Failed to retrieve wallet view after command" (get_wallet id)

  unfoldable pub create_wallet : Option Uuid → Text → Option Uuid → Exec S WalletView
  unfolding wrap fetch
  create_wallet user currency wallet = do
    id ← wrap "Failed to create wallet" (commands.create_wallet wallet user currency)
    fetch "Wallet created but not found in read model" "Wallet created but failed to load view"
        (get_wallet (some id))

  unfoldable pub deposit : Option Uuid → Decimal → Option Uuid → Exec S WalletView
  unfolding wrap safe_fetch_view
  deposit wallet amount reference = do
    wrap "Failed to deposit into wallet" (commands.deposit wallet amount reference)
    safe_fetch_view wallet

  unfoldable pub withdraw : Option Uuid → Decimal → Option Uuid → Exec S WalletView
  unfolding wrap safe_fetch_view
  withdraw wallet amount reference = do
    wrap "Failed to withdraw from wallet" (commands.withdraw wallet amount reference)
    safe_fetch_view wallet

  unfoldable pub pay_with_wallet : Option Uuid → Decimal → Option Uuid → Exec S WalletView
  unfolding wrap safe_fetch_view
  pay_with_wallet wallet amount booking = do
    wrap "Failed to pay using wallet" (commands.pay_with_wallet wallet amount booking)
    safe_fetch_view wallet

  unfoldable pub refund : Option Uuid → Decimal → Option Uuid → Exec S WalletView
  unfolding wrap safe_fetch_view
  refund wallet amount booking = do
    wrap "Failed to refund to wallet" (commands.refund wallet amount booking)
    safe_fetch_view wallet

  unfoldable pub adjustment : Option Uuid → Decimal → Text → Option Uuid → Exec S WalletView
  unfolding wrap safe_fetch_view
  adjustment wallet amount reason admin = do
    wrap "Failed to adjust wallet balance" (commands.adjustment wallet amount reason admin)
    safe_fetch_view wallet

  unfoldable pub suspend_wallet : Option Uuid → Exec S WalletView
  unfolding wrap safe_fetch_view
  suspend_wallet wallet = do
    wrap "Failed to suspend wallet" (commands.suspend_wallet wallet)
    safe_fetch_view wallet

  unfoldable pub activate_wallet : Option Uuid → Exec S WalletView
  unfolding wrap safe_fetch_view
  activate_wallet wallet = do
    wrap "Failed to activate wallet" (commands.activate_wallet wallet)
    safe_fetch_view wallet

  unfoldable pub close_wallet : Option Uuid → Exec S WalletView
  unfolding wrap safe_fetch_view
  close_wallet wallet = do
    wrap "Failed to close wallet" (commands.close_wallet wallet)
    safe_fetch_view wallet
