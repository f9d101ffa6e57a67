-- ===== src/Mcp/Events.antt =====
-- apps/server/src/mcp/mcp-session.service.ts: the events that wait in a session. The table is the
-- list of its rows, in the order in which they were saved; of two that were created at one moment
-- the database may return either first. The ids of events are given. The clock is read once in a
-- call. Times are milliseconds.
pub mod Order
pub mod Delivery
use mathlib.Core.Path.{subst}
use openviking_admin.Prelude.{
  ℕ, zero, suc, ◌+◌, ◌-◌, ◌*◌, ◌≤◌, ◌<◌, String, ◌≡◌, refl, sym, ap, ◌∙◌, ◌≢◌, ◌↔◌, ◌⊎◌, inl, inr,
  Bool, true, false, not, ◌&&◌, ◌||◌, Option, none, some, List, [], ◌∷◌, ◌++◌, map, arith, eq_iff,
  str_eq, str_eq_refl, str_eq→≡, str_ne, if◌then◌else◌, Bool-cases, Option-cases, truthy, or_else,
  Result, ok, err, ◌>>=◌, ◌>>◌, is_ok, Result-cases, In, In-append, In-append_left, In-append_right,
  length, length-append, ltb, leb, ◌==◌, get, set, delete, Map, sweep, HasUniqueKeys, fresh, modify,
  mapped, get-modify, modify-HasUniqueKeys, get-set, get-delete, get-sweep, set-HasUniqueKeys,
  delete-HasUniqueKeys, sweep-HasUniqueKeys, take, In-take, length-take, insert_by, sort_by,
  In-sort_by, take-sort_by,
}

pub record McpSessionEvent : Type 0 where
  pub id : String
  pub session_id : String
  pub event_type : Option String
  pub payload : String
  pub delivered_at : Option ℕ
  pub expires_at : ℕ
  pub created_at : ℕ

pub record PendingEvent : Type 0 where
  pub id : String
  pub type : Option String
  pub payload : String

abbrev pub Events : Type 0
Events = List McpSessionEvent

abbrev pub event_ttl_ms : ℕ
event_ttl_ms = 10 * 60 * 1000

-- `LessThan(new Date(now.getTime() - EVENT_TTL_MS))` on a column that may be null; the difference
-- stands as a sum on the other side.
abbrev pub is_long_before : ℕ → Option ℕ → Bool
is_long_before now none = false
is_long_before now (some t) = ltb (t + event_ttl_ms) now

-- The conditions of `cleanupExpiredRecords`.
abbrev pub is_event_done : ℕ → McpSessionEvent → Bool
is_event_done now event = ltb event.expires_at now || is_long_before now event.delivered_at

unfoldable pub keep_events : ℕ → List McpSessionEvent → List McpSessionEvent
keep_events now [] = []
keep_events now (event ∷ events) =
    let rest = keep_events now events in if is_event_done now event then rest else event ∷ rest

-- The row is stamped by the database when it is written.
abbrev pub new_event : (id session_id payload : String) → Option String → ℕ → McpSessionEvent
new_event id session_id payload event_type now = record {
  id = id;
  session_id = session_id;
  event_type = event_type;
  payload = payload;
  delivered_at = none;
  expires_at = now + event_ttl_ms;
  created_at = now;
}

unfoldable pub enqueue_event :
    (id session_id payload : String) → Option String → ℕ → Events → Events
enqueue_event id session_id payload event_type now events =
    events ++ new_event id session_id payload event_type now ∷ []

-- The condition of `pullPendingEvents` on a row.
abbrev pub is_pending : String → ℕ → McpSessionEvent → Bool
is_pending session_id now event =
    str_eq event.session_id session_id
    && (elim event.delivered_at [ none ↦ true | some t ↦ false ])
    && ltb now event.expires_at

unfoldable pub pending : String → ℕ → List McpSessionEvent → List McpSessionEvent
pending session_id now [] = []
pending session_id now (event ∷ events) =
    let rest = pending session_id now events in
    if is_pending session_id now event then event ∷ rest else rest

-- `order: { createdAt: 'ASC' }`
unfoldable pub order_by_created_at : List McpSessionEvent → List McpSessionEvent
unfolding sort_by
order_by_created_at events = sort_by (λ event. event.created_at) events

unfoldable pub is_listed : String → List McpSessionEvent → Bool
is_listed id [] = false
is_listed id (event ∷ events) = str_eq event.id id || is_listed id events

-- `eventRepo.update` on the ids of `found`.
unfoldable pub mark_delivered :
    ℕ → List McpSessionEvent → List McpSessionEvent → List McpSessionEvent
unfolding is_listed
mark_delivered now found [] = []
mark_delivered now found (event ∷ events) =
    (if is_listed event.id found then record event { delivered_at = some now } else event)
    ∷ mark_delivered now found events

abbrev pub shown : McpSessionEvent → PendingEvent
shown event = record { id = event.id; type = event.event_type; payload = event.payload }

unfoldable pub pull_found : String → ℕ → Events → List McpSessionEvent
unfolding pending order_by_created_at take
pull_found session_id now events = take 50 (order_by_created_at (pending session_id now events))

-- An update of no row changes nothing, so the early return for no events needs no case.
unfoldable pub pull_pending_events : String → ℕ → Events → List PendingEvent × Events
unfolding pull_found mark_delivered
pull_pending_events session_id now events =
    let found = pull_found session_id now events in
    (map shown found, mark_delivered now found events)
