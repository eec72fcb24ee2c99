-- ===== src/Kafka/Fetch.antt =====
-- Which events the publisher fetches: `get_unpublished_events` of orm_repository.py.
use microservice_wallet_serv.Base.{
  ℕ, zero, suc, ◌≡◌, refl, sym, ap, ◌∙◌, true, false, ◌||◌, All, List, [], ◌∷◌, arith, ==_refl,
  ◌==◌,
}
use microservice_wallet_serv.Errors.{Uuid}
use microservice_wallet_serv.Outbox.{
  OutboxEvent, OutboxRow, Outbox, has_id, unprocessed, first, insert_by_created, order_by_created,
  get_unpublished_events,
}

unfoldable pub event_ids : List OutboxEvent → List Uuid
event_ids [] = []
event_ids (e ∷ es) = e.id ∷ event_ids es

-- every id is one of the table
abbrev pub AreKnown : Outbox → List Uuid → Type 0
AreKnown rows = All (λ id. has_id id rows ≡ true)

has_id-insert_by_created :
    (j : Uuid) (r : OutboxRow) (rows : Outbox)
    → has_id j (insert_by_created r rows) ≡ (r.id == j || has_id j rows)
unfolding insert_by_created has_id
has_id-insert_by_created j r [] = refl
has_id-insert_by_created j r (x ∷ rows) = ground (arith, has_id-insert_by_created j r rows)

has_id-order_by_created :
    (j : Uuid) (rows : Outbox) → has_id j (order_by_created rows) ≡ has_id j rows
unfolding order_by_created has_id
has_id-order_by_created j [] = refl
has_id-order_by_created j (x ∷ rows) =
    has_id-insert_by_created j x (order_by_created rows)
    ∙ ap (λ b. x.id == j || b) (has_id-order_by_created j rows)

has_id-unprocessed :
    (j : Uuid) (rows : Outbox) → has_id j (unprocessed rows) ≡ true → has_id j rows ≡ true
unfolding unprocessed has_id
has_id-unprocessed j [] h = ground arith
has_id-unprocessed j (x ∷ rows) h = ground (arith, has_id-unprocessed j rows)

known_later :
    (x : OutboxRow) (rows : Outbox) (ids : List Uuid) → AreKnown rows ids → AreKnown (x ∷ rows) ids
unfolding has_id
known_later x rows [] h = tt
known_later x rows (id ∷ ids) h = (ground (arith, h.0), known_later x rows ids h.1)

first-AreKnown : (n : ℕ) (rows : Outbox) → AreKnown rows (event_ids (first n rows))
unfolding event_ids has_id
first-AreKnown zero rows = tt
first-AreKnown (suc n) [] = tt
first-AreKnown (suc n) (x ∷ rows) = (
  ground (arith, ==_refl x.id),
  known_later x rows (event_ids (first n rows)) (first-AreKnown n rows),
)

known_map :
    (a b : Outbox) (ids : List Uuid)
    → ((j : Uuid) → has_id j a ≡ true → has_id j b ≡ true)
    → AreKnown a ids
    → AreKnown b ids
known_map a b [] f h = tt
known_map a b (id ∷ ids) f h = (f id h.0, known_map a b ids f h.1)

-- the fetched events still wait, and are rows of the table
pub fetched_wait :
    (limit : ℕ) (rows : Outbox)
    → AreKnown (unprocessed rows) (event_ids (get_unpublished_events limit rows))
unfolding get_unpublished_events
fetched_wait limit rows =
    known_map _ _ _ (λ j h. sym (has_id-order_by_created j (unprocessed rows)) ∙ h)
      (first-AreKnown limit (order_by_created (unprocessed rows)))

pub fetched_known :
    (limit : ℕ) (rows : Outbox) → AreKnown rows (event_ids (get_unpublished_events limit rows))
fetched_known limit rows =
    known_map _ _ _ (λ j. has_id-unprocessed j rows) (fetched_wait limit rows)

first-nil : (n : ℕ) (rows : Outbox) → first (suc n) rows ≡ [] → rows ≡ []
first-nil n [] h = refl
first-nil n (x ∷ rows) h = cc

empty_ids : (rows : Outbox) → ((j : Uuid) → has_id j rows ≡ false) → rows ≡ []
unfolding has_id
empty_ids [] h = refl
empty_ids (x ∷ rows) h = let known = h x.id in ground (arith, known, ==_refl x.id)

-- nothing is fetched only when nothing waits
pub fetched_nothing :
    (limit : ℕ) (rows : Outbox)
    → get_unpublished_events (suc limit) rows ≡ []
    → unprocessed rows ≡ []
unfolding get_unpublished_events has_id
fetched_nothing limit rows h = empty_ids (unprocessed rows) λ j.
    sym (has_id-order_by_created j (unprocessed rows))
    ∙ ap (has_id j) (first-nil limit (order_by_created (unprocessed rows)) h)
