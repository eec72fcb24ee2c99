-- ===== src/Event/TypeName.antt =====
-- `normalize_wallet_event_type` and the registry of events.py: the spellings of an event's type.
use mathlib.Core.List.{reverse, flat_map}
use microservice_wallet_serv.Base.{
  ℕ, ◌≡◌, refl, Bool, true, false, ◌&&◌, Option, none, some, List, [], ◌∷◌, ◌++◌, leb, ◌==◌,
  if◌then◌else◌,
}
use microservice_wallet_serv.Base.Text.{Text, text, same_text, upper}
use microservice_wallet_serv.Errors.{Result, ok, err, value_error}
use microservice_wallet_serv.Event.{
  EventKind, wallet_created, wallet_activated, wallet_suspended, wallet_closed, wallet_deposited,
  wallet_withdrawn, wallet_payment_made, wallet_refunded, wallet_payment_failed,
  wallet_refund_failed, wallet_adjusted, value,
}

-- the names of the members of `WalletEventType`
unfoldable pub enum_name : EventKind → Text
enum_name wallet_created = text "WALLET_CREATED"
enum_name wallet_activated = text "WALLET_ACTIVATED"
enum_name wallet_suspended = text "WALLET_SUSPENDED"
enum_name wallet_closed = text "WALLET_CLOSED"
enum_name wallet_deposited = text "WALLET_DEPOSITED"
enum_name wallet_withdrawn = text "WALLET_WITHDRAWN"
enum_name wallet_payment_made = text "WALLET_PAYMENT_MADE"
enum_name wallet_refunded = text "WALLET_REFUNDED"
enum_name wallet_payment_failed = text "WALLET_PAYMENT_FAILED"
enum_name wallet_refund_failed = text "WALLET_REFUND_FAILED"
enum_name wallet_adjusted = text "WALLET_ADJUSTED"

-- the keys of `WALLET_EVENT_REGISTRY`
abbrev pub registry : List EventKind
registry =
    wallet_created ∷ wallet_activated ∷ wallet_suspended ∷ wallet_closed ∷ wallet_deposited
    ∷ wallet_withdrawn ∷ wallet_payment_made ∷ wallet_refunded ∷ wallet_adjusted ∷ []

abbrev pub members : List EventKind
members = registry ++ wallet_payment_failed ∷ wallet_refund_failed ∷ []

-- the kind in a list that is spelled `t`
unfoldable pub find_kind : (EventKind → Text) → Text → List EventKind → Option EventKind
find_kind f t [] = none
find_kind f t (k ∷ ks) = if same_text t (f k) then some k else find_kind f t ks

-- `if s.endswith("Event"): s = s[:-5]`, on the reversed text
unfoldable pub strip_event_rev : Text → Text
strip_event_rev (a ∷ b ∷ c ∷ d ∷ e ∷ s) =
    if same_text (a ∷ b ∷ c ∷ d ∷ e ∷ []) (text "tnevE") then s else a ∷ b ∷ c ∷ d ∷ e ∷ s
strip_event_rev s = s

-- `"_" + c if c.isupper() else c`
unfoldable pub underscore : ℕ → Text
underscore c = if leb b'A' c && leb c b'Z' then b'_' ∷ c ∷ [] else c ∷ []

-- s.lstrip("_")
unfoldable pub lstrip_underscore : Text → Text
lstrip_underscore [] = []
lstrip_underscore (c ∷ s) = if c == b'_' then lstrip_underscore s else c ∷ s

-- "WalletCreatedEvent" to "WALLET_CREATED"
unfoldable pub enum_name_of_class : Text → Text
unfolding strip_event_rev underscore lstrip_underscore upper
enum_name_of_class t =
    lstrip_underscore (upper (flat_map underscore (reverse (strip_event_rev (reverse t)))))

unfoldable pub normalize_wallet_event_type : Text → Result Text
unfolding find_kind enum_name value enum_name_of_class same_text
normalize_wallet_event_type t = elim (find_kind value t registry) [
  | some _ ↦ ok t
  | none ↦ elim (find_kind enum_name t members) [
    | some k ↦ ok (value k)
    | none ↦ elim (find_kind enum_name (enum_name_of_class t) members) [
      | some k ↦ ok (value k)
      | none ↦ err (value_error "Unknown wallet event type")
    ]
  ]
]

-- The name of the class that the registry has for a kind. The two failure kinds have no class:
-- theirs are the names that classes for them would have, which serve as spellings only.
unfoldable pub class_name : EventKind → Text
class_name wallet_created = text "WalletCreatedEvent"
class_name wallet_activated = text "WalletActivatedEvent"
class_name wallet_suspended = text "WalletSuspendedEvent"
class_name wallet_closed = text "WalletClosedEvent"
class_name wallet_deposited = text "WalletDepositedEvent"
class_name wallet_withdrawn = text "WalletWithdrawnEvent"
class_name wallet_payment_made = text "WalletPaymentMadeEvent"
class_name wallet_refunded = text "WalletRefundedEvent"
class_name wallet_payment_failed = text "WalletPaymentFailedEvent"
class_name wallet_refund_failed = text "WalletRefundFailedEvent"
class_name wallet_adjusted = text "WalletAdjustedEvent"

abbrev unknown_type : Result Text
unknown_type = err (value_error "Unknown wallet event type")

abbrev pub is_registered : EventKind → Bool
is_registered wallet_payment_failed = false
is_registered wallet_refund_failed = false
is_registered _ = true

-- The member's name and the class name of every kind (for the two failure kinds, which have no
-- class, the name that one would have) are normalized to the kind's value. The value itself is
-- accepted exactly for the kinds that the registry has: those of the two failure kinds raise
-- ValueError.
pub normalize_spellings :
    (k : EventKind)
    → (normalize_wallet_event_type (value k)
        ≡ (if is_registered k then ok (value k) else unknown_type))
      × (normalize_wallet_event_type (enum_name k) ≡ ok (value k))
      × (normalize_wallet_event_type (class_name k) ≡ ok (value k))
unfolding normalize_wallet_event_type class_name flat_map
normalize_spellings wallet_created = (refl, refl, refl)
normalize_spellings _ = (refl, refl, refl)
