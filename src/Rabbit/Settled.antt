-- ===== src/Rabbit/Settled.antt =====
-- How the consumer settles its deliveries, and what a redelivery does.
use mathlib.Core.Path.{ap₂, subst}
use microservice_wallet_serv.Base.{
  ℕ, ◌≡◌, refl, sym, ap, ◌∙◌, ◌++◌, false, true, Bool, List, [], ◌∷◌, All, if◌then◌else◌,
}
use microservice_wallet_serv.Base.Text.{Text}
use microservice_wallet_serv.Errors.{Result, ok, err}
use microservice_wallet_serv.Errors.Exec.{Exec, catch_all, pure, ◌>>=◌}
use microservice_wallet_serv.Decimal.{Decimal}
use microservice_wallet_serv.Event.Json.{Json, Codec}
use microservice_wallet_serv.Queries.{WalletView}
use microservice_wallet_serv.Dedup.{Cache, is_duplicate}
use microservice_wallet_serv.Dedup.Once.{
  guarded, guarded_all, guarded_all_lem, is_seen, first_of_each, process_all, IsWithin,
}
use microservice_wallet_serv.Rabbit.{AclCommand, request_payment, request_refund}
use microservice_wallet_serv.Rabbit.Booking.{
  Context, or_log, dispatch_wallet_command, handle_payment, handle_refund, try_payment, try_refund,
  command_handler,
}
use microservice_wallet_serv.Rabbit.Consumer.{
  Delivery, Settlement, ack, nack, id_of, key_prefix, read_command, dispatch_or_nack, callback,
  consume,
}

-- the tag that a settlement names
unfoldable pub tag_of : Settlement → ℕ
tag_of (ack tag) = tag
tag_of (nack tag) = tag

unfoldable pub tags : List Settlement → List ℕ
unfolding tag_of
tags [] = []
tags (x ∷ xs) = tag_of x ∷ tags xs

unfoldable pub delivery_tags : List Delivery → List ℕ
delivery_tags [] = []
delivery_tags (d ∷ ds) = d.delivery_tag ∷ delivery_tags ds

module _ {S : Type 0} (C : Codec) (ctx : Context S) where
  or_log_ok : (m : Exec S WalletView) (s : S) → (or_log C ctx m s).0 ≡ ok tt
  unfolding or_log
  or_log_ok m s = (catch_all (m >>= λ _. pure tt) tt s).1

  -- no command's handler raises
  dispatch_ok : (c : AclCommand) (s : S) → (dispatch_wallet_command C ctx c s).0 ≡ ok tt
  unfolding dispatch_wallet_command command_handler handle_payment handle_refund
  dispatch_ok (request_payment f) s = or_log_ok (try_payment C ctx f) s
  dispatch_ok (request_refund f) s = or_log_ok (try_refund C ctx f) s

module _ {K S : Type 0} (cache : Cache K) (loads : Text → Result Json) (C : Codec)
    (accepts : Decimal → Bool) (ctx : Context S) where
  -- what a message does to the store when it is not a duplicate, by the command that it makes
  unfoldable pub effect_of : Result AclCommand → S → S
  effect_of (ok command) s = (dispatch_wallet_command C ctx command s).1
  effect_of (err _) s = s

  unfoldable pub effect : Delivery → S → S
  effect d = effect_of (read_command cache loads C accepts ctx d)

  -- how it is settled then
  unfoldable pub settlement_of : Delivery → Result AclCommand → Settlement
  settlement_of d (ok _) = ack d.delivery_tag
  settlement_of d (err _) = nack d.delivery_tag

  unfoldable pub settlement : Delivery → Settlement
  settlement d = settlement_of d (read_command cache loads C accepts ctx d)

  dispatch_or_nack_lem :
      (d : Delivery) (r : Result AclCommand) (s : S)
      → dispatch_or_nack cache loads C accepts ctx d r s ≡ (settlement_of d r, effect_of r s)
  unfolding dispatch_or_nack effect_of settlement_of
  dispatch_or_nack_lem d (err e) s = refl
  dispatch_or_nack_lem d (ok c) s = rw (dispatch_ok C ctx c s) refl

  -- A delivery whose id is in the cache is acknowledged and changes nothing. Any other is
  -- acknowledged exactly when its body, its header and its payload make a command, whatever becomes of
  -- the command: a payment or a refund that the wallet refuses is acknowledged too, since the
  -- handlers raise nothing. One that makes no command is rejected, and leaves the store as it was.
  pub callback_settles :
      (d : Delivery) (c : K) (s : S)
      → callback cache loads C accepts ctx d (c, s) ≡ (
          let (duplicate, c') = is_duplicate cache key_prefix d.time (id_of d) c in
          if duplicate then (ack d.delivery_tag, c', s) else (settlement d, c', effect d s))
  unfolding callback effect settlement
  callback_settles d c s =
      ap
        (λ r.
          let (duplicate, c') = is_duplicate cache key_prefix d.time (id_of d) c in
          if duplicate then (ack d.delivery_tag, c', s) else (r.0, c', r.1))
        (dispatch_or_nack_lem d (read_command cache loads C accepts ctx d) s)

  settled_tag : (d : Delivery) (r : Result AclCommand) → tag_of (settlement_of d r) ≡ d.delivery_tag
  unfolding tag_of settlement_of
  settled_tag d (ok c) = refl
  settled_tag d (err e) = refl

  -- one callback, as the guarded step of the deduplication
  callback-guarded :
      (d : Delivery) (c : K) (s : S)
      → let (x, c', s') = callback cache loads C accepts ctx d (c, s) in
        (tag_of x ≡ d.delivery_tag)
        × ((c', s') ≡ guarded cache key_prefix (λ e. e.time) id_of effect d (c, s))
  unfolding guarded settlement tag_of
  callback-guarded d c s =
      subst
        (λ r.
          (tag_of r.0 ≡ d.delivery_tag)
          × ((r.1, r.2) ≡ guarded cache key_prefix (λ e. e.time) id_of effect d (c, s)))
        (sym (callback_settles d c s)) (cases (is_duplicate cache key_prefix d.time (id_of d) c))
    where
      cases :
          (p : Bool × K)
          → let r : Settlement × K × S =
              if p.0 then (ack d.delivery_tag, p.1, s) else (settlement d, p.1, effect d s) in
            (tag_of r.0 ≡ d.delivery_tag)
            × (Path (K × S) (r.1, r.2) (p.1, if p.0 then s else effect d s))
      cases (true, c') = (refl, refl)
      cases (false, c') = (settled_tag d (read_command cache loads C accepts ctx d), refl)

  consume_guarded :
      (ds : List Delivery) (c : K) (s : S)
      → let (xs, c', s') = consume cache loads C accepts ctx ds (c, s) in
        (tags xs ≡ delivery_tags ds)
        × ((c', s') ≡ guarded_all cache key_prefix (λ e. e.time) id_of effect ds (c, s))
  unfolding consume tags delivery_tags guarded_all
  consume_guarded [] c s = (refl, refl)
  consume_guarded (d ∷ ds) c s =
      let (x, c', s') = callback cache loads C accepts ctx d (c, s) in
      let (tag, state) = callback-guarded d c s in
      let (rest, after) = consume_guarded ds c' s' in
      (
        ap₂ ◌∷◌ tag rest,
        after ∙ ap (guarded_all cache key_prefix (λ e. e.time) id_of effect ds) state,
      )

  -- Take any deliveries, redeliveries and repeated ids among them, within a week of one another, to
  -- a cache that has none of their ids. The consumer settles each delivery exactly once, by its
  -- tag and in their order, and leaves the store as it is after the messages without an id and the
  -- first message of each id: a message is handled at most once, and also if that once has failed.
  pub consume_once :
      (start : ℕ) (ds : List Delivery) (c : K) (s : S)
      → All (IsWithin (λ (e : Delivery). e.time) start) ds
      → All (λ (d : Delivery). cache.holds d.time (key_prefix ++ id_of d) c ≡ false) ds
      → let (xs, c', s') = consume cache loads C accepts ctx ds (c, s) in
        (tags xs ≡ delivery_tags ds) × (s' ≡ process_all effect (first_of_each id_of [] ds) s)
  unfolding is_seen
  consume_once start ds c s within fresh =
      let (settled, state) = consume_guarded ds c s in
      (
        settled,
        ap (λ p. p.1) state
            ∙ guarded_all_lem cache key_prefix (λ e. e.time) id_of effect start [] c ds s within
                fresh,
      )
