-- ===== src/Outbox/Tests.antt =====
-- The outbox theorems at concrete rows.
use microservice_wallet_serv.Base.{ℕ, ◌≡◌, refl, false, true, none, [], ◌∷◌}
use microservice_wallet_serv.Base.Text.{text}
use microservice_wallet_serv.Errors.{ok}
use microservice_wallet_serv.Event.Json.{end}
use microservice_wallet_serv.Outbox.{
  OutboxEvent, Outbox, pending_row, unprocessed, has_id, is_none, mark_as_published, mark_as_failed,
  update_where,
}
use microservice_wallet_serv.Outbox.Admin.{
  is_listed, mark_as_unprocessed, delete_processed_old, delete_where, is_old_processed,
  admin_actions_lem,
}
use microservice_wallet_serv.Outbox.Delivery.{row_ids, mark_as_published_lem, mark_as_failed_lem}

abbrev message : ℕ → OutboxEvent
message id = record {
  id = id;
  event_type = text "wallet.closed";
  event_payload = end;
  aggregate_id = 7;
  aggregate_type = text "Wallet";
  trace_id = none;
  metadata = end;
  created_at = 5;
  retry_count = 0;
}

abbrev rows : Outbox
rows = pending_row (message 11) 1 ∷ pending_row (message 12) 2 ∷ []

mark_as_published_lem_example :
    ((mark_as_published 60 11 rows).0 ≡ ok tt)
    × (has_id 11 (unprocessed (mark_as_published 60 11 rows).1) ≡ false)
    × (mark_as_published 90 11 (mark_as_published 60 11 rows).1
        ≡ (ok tt, (mark_as_published 60 11 rows).1))
unfolding has_id is_none
mark_as_published_lem_example = mark_as_published_lem 60 90 11 rows (λ h. cc, (λ h. cc, tt)) refl

mark_as_failed_lem_example :
    (row_ids (unprocessed (mark_as_failed 11 (text "timed out") rows).1)
      ≡ row_ids (unprocessed rows))
    × ((mark_as_failed 11 (text "timed out") rows).0 ≡ ok tt)
unfolding has_id
mark_as_failed_lem_example = mark_as_failed_lem 11 (text "timed out") rows

-- 11 has been published long ago, 12 waits
abbrev old_rows : Outbox
old_rows = (mark_as_published 60 11 rows).1

old_rows_left : (delete_processed_old 700000000000 old_rows).1 ≡ pending_row (message 12) 2 ∷ []
unfolding delete_processed_old delete_where is_old_processed mark_as_published update_where is_none
old_rows_left = refl

admin_actions_lem_example :
    (unprocessed (delete_processed_old 700000000000 old_rows).1 ≡ unprocessed old_rows)
    × (has_id 11 (unprocessed (mark_as_unprocessed (11 ∷ []) old_rows).1) ≡ true)
    × (has_id 11 (
          unprocessed
            (delete_processed_old 700000000000 (mark_as_unprocessed (11 ∷ []) old_rows).1).1)
        ≡ true)
unfolding has_id is_listed mark_as_published update_where is_none unprocessed
admin_actions_lem_example = admin_actions_lem 700000000000 (11 ∷ []) 11 old_rows
