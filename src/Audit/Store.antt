-- ===== src/Audit/Store.antt =====
-- backend/internal/repo/auditstore: the table of audit events, its idempotent insert and its page
-- query, and the limits that usecase/audit/query.go and the server set on a page. A row is the event
-- that it stores; the cache of query.go is left out.
pub mod Order
pub mod Paging
pub mod Inserts
mod Tests
use Prim.Native.Nat.{min}
use golang_service_architect.Common.{
  ℕ, zero, suc, ◌+◌, Bool, true, false, ◌&&◌, ◌||◌, not, Option, none, some, List, [], ◌∷◌, ◌++◌,
  take, ltb, leb, ◌==◌, if◌then◌else◌,
}
use golang_service_architect.Text.{Text, same_text}
use golang_service_architect.Expression.Task.{Uuid}
use golang_service_architect.Expression.Service.{max_page_size}
use golang_service_architect.Persistent.Tables.{select}
use golang_service_architect.Audit.{AuditEvent}

-- `AuditFilter`; zero values mean no constraint.
pub record AuditFilter : Type 0 where
  pub from : ℕ
  pub to : ℕ
  pub type : Text
  pub entity_type : Text
  pub entity_id : Text
  pub trace_id : Text
  pub cursor_time : ℕ
  pub cursor_id : Uuid
  pub limit : ℕ

-- QueryAuditEventsParams, but for the size of the page.
pub record QueryParams : Type 0 where
  pub from_ts : Option ℕ
  pub to_ts : Option ℕ
  pub event_type : Option Text
  pub entity_type : Option Text
  pub entity_id : Option Text
  pub trace_id : Option Text
  pub cursor : Option (ℕ × Uuid)

abbrev pub set_time : ℕ → Option ℕ
set_time t = if t == 0 then none else some t

abbrev pub set_text : Text → Option Text
set_text [] = none
set_text (c ∷ cs) = some (c ∷ cs)

abbrev pub set_cursor : ℕ → Uuid → Option (ℕ × Uuid)
set_cursor t id = if t == 0 then none else some (t, id)

-- The parameters that `Store.Query` builds.
abbrev pub query_params : AuditFilter → QueryParams
query_params f = record {
  from_ts = set_time f.from;
  to_ts = set_time f.to;
  event_type = set_text f.type;
  entity_type = set_text f.entity_type;
  entity_id = set_text f.entity_id;
  trace_id = set_text f.trace_id;
  cursor = set_cursor f.cursor_time f.cursor_id;
}

-- `(t, id) < (u, j)` in SQL.
unfoldable pub is_before : ℕ → Uuid → ℕ → Uuid → Bool
is_before t id u j = ltb t u || (t == u && ltb id j)

abbrev pub is_absent_or : {A : Type 0} → Option A → (A → Bool) → Bool
is_absent_or none test = true
is_absent_or (some a) test = test a

abbrev pub Rows : Type 0 → Type 0
Rows P = List (AuditEvent P)

-- The limit that `QueryService.Query` sets.
unfoldable pub page_limit : ℕ → ℕ
page_limit n = if n == 0 || ltb max_page_size n then 50 else n

module _ {P : Type 0} where
  -- A row stands in front of another one in a page.
  abbrev pub newer : AuditEvent P → AuditEvent P → Bool
  newer r s = is_before s.occurred_at s.id r.occurred_at r.id

  -- The primary key.
  abbrev pub same_key : AuditEvent P → AuditEvent P → Bool
  same_key r s = r.occurred_at == s.occurred_at && r.id == s.id

  abbrev pub has_key : AuditEvent P → Rows P → Bool
  has_key r [] = false
  has_key r (s ∷ rows) = same_key r s || has_key r rows

  -- InsertAuditEventsIdempotent: a row whose key is taken is skipped; the number of the new rows.
  abbrev pub insert_event : AuditEvent P → Rows P → ℕ × Rows P
  insert_event ev rows = if has_key ev rows then (0, rows) else (1, rows ++ ev ∷ [])

  unfoldable pub insert_events : Rows P → Rows P → ℕ × Rows P
  insert_events [] rows = (0, rows)
  insert_events (ev ∷ evs) rows =
      let (n, rows₁) = insert_event ev rows in
      let (m, rows₂) = insert_events evs rows₁ in (n + m, rows₂)

  -- The `WHERE` of QueryAuditEvents: the filters, and the cursor.
  abbrev pub is_within : QueryParams → AuditEvent P → Bool
  is_within p r =
      is_absent_or p.from_ts (λ t. leb t r.occurred_at)
      && is_absent_or p.to_ts (λ t. ltb r.occurred_at t)
      && is_absent_or p.event_type (λ s. same_text r.type s)
      && is_absent_or p.entity_type (λ s. same_text r.entity_type s)
      && is_absent_or p.entity_id (λ s. same_text r.entity_id s)
      && is_absent_or p.trace_id (λ s. same_text r.trace_id s)

  abbrev pub is_behind : Option (ℕ × Uuid) → AuditEvent P → Bool
  is_behind none r = true
  is_behind (some (t, id)) r = is_before r.occurred_at r.id t id

  -- `ORDER BY occurred_at DESC, id DESC`
  unfoldable pub insert_row : AuditEvent P → Rows P → Rows P
  insert_row r [] = r ∷ []
  insert_row r (s ∷ rows) =
      let later = insert_row r rows in if newer r s then r ∷ s ∷ rows else s ∷ later

  unfoldable pub order_by : Rows P → Rows P
  unfolding insert_row
  order_by [] = []
  order_by (r ∷ rows) = insert_row r (order_by rows)

  -- QueryAuditEvents without its limit.
  abbrev pub query_rows : QueryParams → Rows P → Rows P
  query_rows p rows = order_by (select (λ r. is_within p r && is_behind p.cursor r) rows)

  -- `QueryService.Query` over `Store.Query`.
  unfoldable pub query_events : AuditFilter → Rows P → Rows P
  unfolding page_limit
  query_events f rows = take (min (page_limit f.limit) 1000) (query_rows (query_params f) rows)

  -- The cursor that `QueryEvents` returns with a page.
  abbrev pub last_row : Rows P → Option (AuditEvent P)
  last_row [] = none
  last_row (r ∷ []) = some r
  last_row (r ∷ s ∷ rows) = last_row (s ∷ rows)

  abbrev pub next_filter : AuditFilter → AuditEvent P → AuditFilter
  next_filter f r = record f { cursor_time = r.occurred_at; cursor_id = r.id }

  -- A caller that asks for page after page, for at most so many, until one is empty.
  unfoldable pub pages : ℕ → AuditFilter → Rows P → Rows P
  unfolding query_events
  pages zero f rows = []
  pages (suc n) f rows =
      let page = query_events f rows in
      elim (last_row page) [ none ↦ page | some r ↦ page ++ pages n (next_filter f r) rows ]
