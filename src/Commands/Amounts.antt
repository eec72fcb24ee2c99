-- ===== src/Commands/Amounts.antt =====
-- What a command that has been constructed says of its amount.
use native.Mathlib.Nat.{mul-pos, one-le-pow}
use microservice_wallet_serv.Base.{
  ℕ, ◌+◌, ◌-◌, ◌*◌, ◌^◌, ◌≤◌, ◌<◌, ◌≡◌, refl, sym, ap, ◌∙◌, Bool, true, false, not, Option, none,
  some, arith,
}
use microservice_wallet_serv.Base.Int.{ℤ, pos, negsuc}
use microservice_wallet_serv.Base.Text.{Text}
use microservice_wallet_serv.Errors.{PyError, Result, ok, err, value_error, raise_if, ◌>>=◌}
use microservice_wallet_serv.Decimal.{
  Decimal, finite, infinite, nan, le_zero, rescale, signed, quantize,
}
use microservice_wallet_serv.Commands.{
  Pydantic, IsWithin, currencies, is_one_of, currency_of, has_more_places, check_amount, ensure_utc,
}
use microservice_wallet_serv.Commands.Messages.{
  Money, CommandBody, deposit_into_wallet, withdraw_from_wallet, pay_with_wallet, refund_to_wallet,
  reserve_wallet_funds, release_wallet_funds, WalletCommand, require, check_money, check_optional,
  check_body, construct,
}

-- the money of a command whose class asks for a positive amount
unfoldable pub charged : CommandBody → Option Money
charged (deposit_into_wallet _ _ m _ _) = some m
charged (withdraw_from_wallet _ _ m _ _) = some m
charged (pay_with_wallet _ _ _ m _) = some m
charged (refund_to_wallet _ _ m _ _) = some m
charged (reserve_wallet_funds _ _ _ m) = some m
charged (release_wallet_funds _ _ m) = some m
charged _ = none

-- the amount is exactly q ten-thousandths
unfoldable pub IsTenThousandths : ℕ → Decimal → Type 0
IsTenThousandths q (finite s c (pos n)) = (s ≡ false) × (q ≡ c * 10 ^ (n + 4))
IsTenThousandths q (finite s c (negsuc n)) = (s ≡ false) × (n ≤ 3) × (q ≡ c * 10 ^ (3 - n))
IsTenThousandths q _ = ⊥

Result-bind :
    {A B : Type 0} (r : Result A) (f : A → Result B) {b : B}
    → (r >>= f) ≡ ok b
    → (a : A) × (r ≡ ok a) × (f a ≡ ok b)
Result-bind (ok a) f h = (a, refl, h)
Result-bind (err e) f h = absurd cc

-- an amount that passes the class's validator passes the service's check, and has four places at most
check_amount_lem :
    (d d' : Decimal)
    → check_amount d ≡ ok d'
    → (d ≡ d') × (le_zero d ≡ ok false) × (has_more_places d ≡ ok false)
unfolding check_amount le_zero has_more_places
check_amount_lem (finite s c e) d' h = ground (arith, h)
check_amount_lem (infinite true) d' h = absurd cc
check_amount_lem (infinite false) d' h = absurd cc
check_amount_lem nan d' h = absurd cc

rescaled : (c n : ℕ) → n ≤ 3 → rescale c (negsuc n) ≡ c * 10 ^ (3 - n)
unfolding rescale
rescaled c n few = ground (arith, few)

few_places : (s : Bool) (c n : ℕ) → has_more_places (finite s c (negsuc n)) ≡ ok false → n ≤ 3
unfolding has_more_places
few_places s c n few = ground (arith, few)

rescale-pos : (c n : ℕ) → rescale c (pos n) ≡ c * 10 ^ (n + 4)
unfolding rescale
rescale-pos c n = refl

stored :
    (c : ℕ) (e : ℤ) (q : ℕ)
    → rescale c e ≡ q
    → q < 10 ^ 19
    → quantize (finite false c e) ≡ ok (pos q)
unfolding quantize signed
stored c e q same small = ground (arith, same, small)

-- an amount within the constraints, with four places at most, is stored without rounding
exact :
    (d : Decimal)
    → IsWithin true d
    → has_more_places d ≡ ok false
    → (q : ℕ) × (quantize d ≡ ok (pos q)) × (0 < q) × (q < 10 ^ 19) × IsTenThousandths q d
unfolding IsWithin IsTenThousandths
exact (finite true c e) within few = absurd (positive (within.0 refl).0)
  where
    positive : true ≡ false → ⊥
    positive h = cc
exact (finite false c (pos n)) within few = (
  c * 10 ^ (n + 4),
  stored c (pos n) (c * 10 ^ (n + 4)) (rescale-pos c n) (scaled c n within.1),
  mul-pos (within.0 refl).1 (one-le-pow (n + 4) 10 (omega arith)),
  scaled c n within.1,
  (refl, refl),
)
  where
    scaled : (c n : ℕ) → rescale c (pos n) < 10 ^ 19 → c * 10 ^ (n + 4) < 10 ^ 19
    scaled c n h = rw (← rescale-pos c n) h
exact (finite false c (negsuc n)) within few =
    let places = few_places false c n few in
    let small : c * 10 ^ (3 - n) < 10 ^ 19 = rw (← rescaled c n places) within.1 in
    (
      c * 10 ^ (3 - n),
      stored c (negsuc n) (c * 10 ^ (3 - n)) (rescaled c n places) small,
      mul-pos (within.0 refl).1 (one-le-pow (3 - n) 10 (omega arith)),
      small,
      (refl, places, refl),
    )
exact (infinite s) within few = absurd within
exact nan within few = absurd within

-- a check that raises nothing has been met
raise_if_lem : (b : Bool) (e : PyError) {u : Unit {0}} → raise_if (not b) e ≡ ok u → b ≡ true
raise_if_lem true e h = refl
raise_if_lem false e h = absurd cc

ok-injective : {A : Type 0} {x y : A} → ok x ≡ ok y → y ≡ x
ok-injective h = cc

currency_of_lem : (v v' : Text) → currency_of v ≡ ok v' → (v ≡ v') × (is_one_of v currencies ≡ true)
unfolding currency_of
currency_of_lem v v' h =
    let (u, known, kept) =
      Result-bind (raise_if (not (is_one_of v currencies)) (value_error "not a valid Currency"))
        (λ _. ok v) h in
    (cc, raise_if_lem (is_one_of v currencies) _ known)

-- a record with a money's two fields is that money
same_money :
    (m m' : Money) (a : Decimal) (c : Text)
    → m.amount ≡ a
    → m.currency ≡ c
    → ok (record { amount = a; currency = c }) ≡ ok m'
    → m ≡ m'
same_money m m' a c p q h =
    let packed : m ≡ record { amount = a; currency = c } =
      λ i. record { amount = p i; currency = q i } in
    packed ∙ cc

check_money_lem :
    (P : Pydantic) (m m' : Money)
    → check_money P m ≡ ok m'
    → (m ≡ m')
      × (P.amount_fits true m.amount ≡ true)
      × (le_zero m.amount ≡ ok false)
      × (has_more_places m.amount ≡ ok false)
      × (is_one_of m.currency currencies ≡ true)
unfolding check_money require
check_money_lem P m m' h =
    let (u, fits, h1) = Result-bind (require (P.amount_fits true m.amount)) _ h in
    let (amount, checked, h2) = Result-bind (check_amount m.amount) _ h1 in
    let (currency, known, h3) = Result-bind (currency_of m.currency) _ h2 in
    let (same_amount, high, few) = check_amount_lem m.amount amount checked in
    let (same_currency, listed) = currency_of_lem m.currency currency known in
    (
      same_money m m' amount currency same_amount same_currency h3,
      raise_if_lem (P.amount_fits true m.amount) _ fits,
      high,
      few,
      listed,
    )

some-injective : {A : Type 0} {x y : A} → some x ≡ some y → y ≡ x
some-injective h = cc

kept : (x b : CommandBody) (m : Money) → ok x ≡ ok b → charged x ≡ some m → charged b ≡ some m
kept x b m h k = cc

-- the money of the message is that of a message whose money has been checked
charged_checked :
    (P : Pydantic) (b b' : CommandBody) (m : Money)
    → check_body P b ≡ ok b'
    → charged b ≡ some m
    → (n : Money) × (check_money P m ≡ ok n) × (charged b' ≡ some n)
unfolding check_body charged
charged_checked P (deposit_into_wallet w u m0 r d) b' m h k =
    let (n, checked, h1) = Result-bind (check_money P m0) _ h in
    let (_, _, h2) = Result-bind (check_optional P 500 d) _ h1 in
    (n, ap (check_money P) (some-injective k) ∙ checked, kept _ b' n h2 refl)
charged_checked P (withdraw_from_wallet w u m0 r d) b' m h k =
    let (n, checked, h1) = Result-bind (check_money P m0) _ h in
    let (_, _, h2) = Result-bind (check_optional P 500 d) _ h1 in
    (n, ap (check_money P) (some-injective k) ∙ checked, kept _ b' n h2 refl)
charged_checked P (pay_with_wallet w u a m0 d) b' m h k =
    let (n, checked, h1) = Result-bind (check_money P m0) _ h in
    let (_, _, h2) = Result-bind (check_optional P 500 d) _ h1 in
    (n, ap (check_money P) (some-injective k) ∙ checked, kept _ b' n h2 refl)
charged_checked P (refund_to_wallet w u m0 a r) b' m h k =
    let (n, checked, h1) = Result-bind (check_money P m0) _ h in
    let (_, _, h2) = Result-bind (check_optional P 300 r) _ h1 in
    (n, ap (check_money P) (some-injective k) ∙ checked, kept _ b' n h2 refl)
charged_checked P (reserve_wallet_funds w u a m0) b' m h k =
    let (n, checked, h1) = Result-bind (check_money P m0) _ h in
    (n, ap (check_money P) (some-injective k) ∙ checked, kept _ b' n h1 refl)
charged_checked P (release_wallet_funds w a m0) b' m h k =
    let (n, checked, h1) = Result-bind (check_money P m0) _ h in
    (n, ap (check_money P) (some-injective k) ∙ checked, kept _ b' n h1 refl)
charged_checked P b b' m h k = absurd cc

-- A command whose class asks for a positive amount, once constructed, carries the amount it was
-- given: one that is positive, that the database's column stores exactly, without rounding, as
-- fewer than 10^19 ten-thousandths, and with a currency of `Currency`.
pub construct_amount :
    (P : Pydantic) (c c' : WalletCommand) (m : Money)
    → construct P c ≡ ok c'
    → charged c.body ≡ some m
    → (charged c'.body ≡ some m)
      × (le_zero m.amount ≡ ok false)
      × (is_one_of m.currency currencies ≡ true)
      × ((q : ℕ) × (quantize m.amount ≡ ok (pos q))
          × (0 < q)
          × (q < 10 ^ 19)
          × IsTenThousandths q m.amount)
unfolding construct
construct_amount P c c' m h k =
    let (at, _, h1) = Result-bind (ensure_utc c.timestamp) _ h in
    let (body, checked, h2) = Result-bind (check_body P c.body) _ h1 in
    let (n, money, still) = charged_checked P c.body body m checked k in
    let (same, fits, high, few, listed) = check_money_lem P m n money in
    (
      ap (λ x. charged x.body) (ok-injective h2) ∙ still ∙ ap some (sym same),
      high,
      listed,
      exact m.amount (P.amount_fits_within true m.amount fits) few,
    )
