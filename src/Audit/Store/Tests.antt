-- ===== src/Audit/Store/Tests.antt =====
-- The audit log on a few events.
use golang_service_architect.Common.{ℕ, ◌<◌, ◌≡◌, refl, [], ◌∷◌, length, arith}
use golang_service_architect.Text.{codes, same_text}
use golang_service_architect.Persistent.Tables.{select}
use golang_service_architect.Audit.{AuditEvent}
use golang_service_architect.Audit.Store.{
  AuditFilter, Rows, insert_events, is_before, order_by, pages,
}
use golang_service_architect.Audit.Store.Order.{IsDescending, IsKeyed}
use golang_service_architect.Audit.Store.Inserts.{insert_events-again}
use golang_service_architect.Audit.Store.Paging.{listing, pages-listing}

abbrev event : ℕ → ℕ → AuditEvent ℕ
event id at = record {
  id = id;
  occurred_at = at;
  type = codes "task.done";
  service = codes "agent";
  entity_type = codes "task";
  entity_id = [];
  trace_id = [];
  actor = [];
  payload = 0;
}

-- Two events of one time.
abbrev log : Rows ℕ
log = event 1 5 ∷ event 3 7 ∷ event 2 7 ∷ []

abbrev everything : AuditFilter
everything = record {
  from = 0;
  to = 0;
  type = codes "task.done";
  entity_type = [];
  entity_id = [];
  trace_id = [];
  cursor_time = 0;
  cursor_id = 0;
  limit = 2;
}

few : length (listing everything log) < 4
unfolding select order_by is_before same_text
few = omega arith

pages-listing_example :
    (pages 4 everything log ≡ listing everything log) × IsDescending (listing everything log)
pages-listing_example =
    pages-listing everything log 4 ((refl, (refl, tt)), ((refl, tt), (tt, tt)))
      (omega arith, (omega arith, (omega arith, tt))) refl few

-- The batch repeats a key, and the table holds one of its keys already.
abbrev batch : Rows ℕ
batch = event 4 9 ∷ event 4 9 ∷ event 1 5 ∷ []

insert_events-again_example :
    (insert_events batch (insert_events batch log).1 ≡ (0, (insert_events batch log).1))
    × IsKeyed (insert_events batch log).1
insert_events-again_example =
    insert_events-again batch log ((refl, (refl, tt)), ((refl, tt), (tt, tt)))
