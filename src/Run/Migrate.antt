-- ===== src/Run/Migrate.antt =====
-- What `migrate` of apps/server/src/db.ts writes into the rows of `runs` at each start of the
-- server. Its first update, of rows without a `queued_at`, finds none: the column is not null.
use cursor_gateway.Base.{Bool, ◌&&◌, some, is_none, same_text}
use cursor_gateway.Table.{update_where}
use cursor_gateway.Run.{CancelReason, Run, Store, RunStatus, is_running, is_terminal, same_status}

unfoldable pub without_activity : Run → Bool
without_activity r = is_running r.status && is_none r.last_activity_at

abbrev pub mark_activity : Run → Run
mark_activity r = record r { last_activity_at = some r.updated_at }

unfoldable pub without_reason : Run → Bool
without_reason r =
    same_status r.status RunStatus.cancelled
    && is_none r.cancel_reason
    && same_text r.error (some "cancelled by caller")

abbrev pub mark_caller_cancelled : Run → Run
mark_caller_cancelled r = record r { cancel_reason = some CancelReason.caller_cancelled }

unfoldable pub without_finish : Run → Bool
without_finish r = is_none r.finished_at && is_terminal r.status

abbrev pub mark_finish : Run → Run
mark_finish r = record r { finished_at = some r.updated_at }

-- The updates of `migrate`, in their order.
unfoldable pub migrate_runs : Store → Store
unfolding without_activity without_reason without_finish update_where
migrate_runs s = record s {
  runs = update_where without_finish mark_finish (
      update_where without_reason mark_caller_cancelled
        (update_where without_activity mark_activity s.runs));
}
