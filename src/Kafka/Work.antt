-- ===== src/Kafka/Work.antt =====
-- The outbox of outbox_publisher.py, measured by the delivery reports that are still to come.
use microservice_wallet_serv.Base.{
  ℕ, ◌+◌, ◌-◌, ◌≤◌, ◌<◌, max, ◌≡◌, refl, inl, inr, Bool, true, false, All, [], ◌∷◌, arith,
  Bool-cases, ◌==◌, if◌then◌else◌,
}
use microservice_wallet_serv.Errors.{Uuid}
use microservice_wallet_serv.Outbox.{OutboxRow, Outbox, update_where, has_id, is_none, unprocessed}
use microservice_wallet_serv.Outbox.Delivery.{IsSettled}

-- ids are the primary key
unfoldable pub IsKeyed : Outbox → Type 0
IsKeyed [] = Unit
IsKeyed (x ∷ xs) = (has_id x.id xs ≡ false) × IsKeyed xs

-- the failures that a row survives at most, with the report that ends it
unfoldable pub row_work : ℕ → OutboxRow → ℕ
row_work retries r = if is_none r.processed_at then max 1 (retries - r.retry_count) else 0

unfoldable pub work : ℕ → Outbox → ℕ
unfolding row_work
work retries [] = 0
work retries (x ∷ xs) = row_work retries x + work retries xs

-- what every step keeps of a table
pub record IsKept (retries : ℕ) (rows rows' : Outbox) : Type 0 where
  pub keyed : IsKeyed rows'
  pub settled : All IsSettled rows'
  pub same_ids : (j : Uuid) → has_id j rows' ≡ has_id j rows
  pub no_more : work retries rows' ≤ work retries rows

module _ (retries : ℕ) (id : Uuid) (test : OutboxRow → Bool) (f : OutboxRow → OutboxRow)
    (same_id : (r : OutboxRow) → (f r).id ≡ r.id)
    (settles : (r : OutboxRow) → IsSettled r → IsSettled (f r))
    (lowers : (r : OutboxRow) → test r ≡ true → row_work retries (f r) ≤ row_work retries r)
    (serves : (r : OutboxRow)
      → IsSettled r
      → (r.id == id) ≡ true
      → is_none r.processed_at ≡ true
      → (test r ≡ true) × (row_work retries (f r) < row_work retries r)) where
  updated_ids : (j : Uuid) (rows : Outbox) → has_id j (update_where test f rows).1 ≡ has_id j rows
  unfolding update_where has_id
  updated_ids j [] = refl
  updated_ids j (x ∷ rows) = ground (arith, same_id x, updated_ids j rows)

  updated-IsKeyed : (rows : Outbox) → IsKeyed rows → IsKeyed (update_where test f rows).1
  unfolding update_where IsKeyed
  updated-IsKeyed [] h = tt
  updated-IsKeyed (x ∷ rows) h =
      ground (arith, same_id x, updated_ids x.id rows, updated-IsKeyed rows h.1, h.0)

  updated_settled :
      (rows : Outbox) → All IsSettled rows → All IsSettled (update_where test f rows).1
  unfolding update_where
  updated_settled [] h = tt
  updated_settled (x ∷ rows) h = elim (Bool-cases (test x)) [
    | inl hit ↦ rw hit (settles x h.0, updated_settled rows h.1)
    | inr miss ↦ rw miss (h.0, updated_settled rows h.1)
  ]

  updated_head :
      (x : OutboxRow) (rows : Outbox)
      → work retries (update_where test f (x ∷ rows)).1
        ≤ row_work retries x + work retries (update_where test f rows).1
  unfolding update_where work
  updated_head x rows = elim (Bool-cases (test x)) [
    | inl hit ↦ ground (arith, lowers x hit)
    | inr miss ↦ ground arith
  ]

  updated_work : (rows : Outbox) → work retries (update_where test f rows).1 ≤ work retries rows
  unfolding update_where work
  updated_work [] = omega arith
  updated_work (x ∷ rows) = omega (arith, updated_head x rows, updated_work rows)

  updated_hit :
      (x : OutboxRow) (rows : Outbox)
      → IsSettled x
      → (x.id == id) ≡ true
      → is_none x.processed_at ≡ true
      → work retries (update_where test f (x ∷ rows)).1 < row_work retries x + work retries rows
  unfolding update_where work
  updated_hit x rows h same waiting =
      let (hit, less) = serves x h same waiting in ground (arith, hit, less, updated_work rows)

  pub updated_serves :
      (rows : Outbox)
      → All IsSettled rows
      → has_id id (unprocessed rows) ≡ true
      → work retries (update_where test f rows).1 < work retries rows
  unfolding work has_id unprocessed
  updated_serves [] h pending = ground arith
  updated_serves (x ∷ rows) h pending = elim (Bool-cases (is_none x.processed_at)) [
    | inl waiting ↦ elim (Bool-cases (x.id == id)) [
      | inl same ↦ updated_hit x rows h.0 same waiting
      | inr other ↦ omega (
        arith,
        updated_head x rows,
        updated_serves rows h.1 (ground (arith, pending, waiting, other)),
      )
    ]
    | inr served ↦
        omega
          (arith, updated_head x rows, updated_serves rows h.1 (ground (arith, pending, served)))
  ]

  pub updated_IsKept :
      (rows : Outbox)
      → IsKeyed rows
      → All IsSettled rows
      → IsKept retries rows (update_where test f rows).1
  updated_IsKept rows keyed settled = record {
    keyed = updated-IsKeyed rows keyed;
    settled = updated_settled rows settled;
    same_ids = λ j. updated_ids j rows;
    no_more = updated_work rows;
  }
