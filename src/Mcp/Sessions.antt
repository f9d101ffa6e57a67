-- ===== src/Mcp/Sessions.antt =====
-- apps/server/src/mcp/mcp-session.service.ts: sessions. Their table is a map from the primary key.
-- `hash` is SHA-256. The random id and token of a session are given. The clock is read once in a
-- call. Times are milliseconds.
pub mod Rows
pub mod Closing
pub mod Renewal
use mathlib.Core.Path.{subst}
use openviking_admin.Prelude.{
  ℕ, zero, suc, ◌+◌, ◌-◌, ◌*◌, ◌≤◌, ◌<◌, String, ◌≡◌, refl, sym, ap, ◌∙◌, ◌≢◌, ◌↔◌, ◌⊎◌, inl, inr,
  Bool, true, false, not, ◌&&◌, ◌||◌, Option, none, some, List, [], ◌∷◌, ◌++◌, map, arith, eq_iff,
  str_eq, str_eq_refl, str_eq→≡, str_ne, if◌then◌else◌, Bool-cases, Option-cases, truthy, or_else,
  Result, ok, err, ◌>>=◌, ◌>>◌, is_ok, Result-cases, In, In-append, In-append_left, In-append_right,
  length, length-append, ltb, leb, ◌==◌, get, set, delete, Map, sweep, HasUniqueKeys, fresh, modify,
  mapped, get-modify, modify-HasUniqueKeys, get-set, get-delete, get-sweep, set-HasUniqueKeys,
  delete-HasUniqueKeys, sweep-HasUniqueKeys, take, In-take, length-take, insert_by, sort_by,
  In-sort_by, take-sort_by,
}
use openviking_admin.Mcp.Events.{
  McpSessionEvent, PendingEvent, Events, event_ttl_ms, is_long_before, is_event_done, keep_events,
  new_event, enqueue_event, is_pending, pending, order_by_created_at, is_listed, mark_delivered,
  shown, pull_found, pull_pending_events,
}

pub record McpSession : Type 0 where
  pub credential_hash : String
  pub session_token_hash : String
  pub expires_at : ℕ
  pub last_seen_at : ℕ
  pub closed_at : Option ℕ

pub record Store : Type 0 where
  pub sessions : Map McpSession
  pub events : Events

abbrev pub session_ttl_ms : ℕ
session_ttl_ms = 30 * 60 * 1000

-- The conditions of `cleanupExpiredRecords`.
abbrev pub is_session_over : ℕ → McpSession → Bool
is_session_over now session = ltb session.expires_at now || is_long_before now session.closed_at

unfoldable pub cleanup_expired_records : ℕ → Store → Store
unfolding keep_events sweep
cleanup_expired_records now s = record {
  sessions = (sweep (is_session_over now) s.sessions).0;
  events = keep_events now s.events;
}

-- `sessionRepo.update`: a row that is not there stays so.
unfoldable pub update_session : String → (McpSession → McpSession) → Store → Store
unfolding modify
update_session session_id change s = record s { sessions = modify session_id change s.sessions }

abbrev pub touched : ℕ → McpSession → McpSession
touched now session = record session { last_seen_at = now; expires_at = now + session_ttl_ms }

unfoldable pub touch_session : String → ℕ → Store → Store
unfolding update_session
touch_session session_id now s = update_session session_id (touched now) s

abbrev pub closed : ℕ → McpSession → McpSession
closed now session = record session { closed_at = some now }

unfoldable pub close_session : String → ℕ → Store → Store
unfolding update_session
close_session session_id now s = update_session session_id (closed now) s

-- HTTP 401
pub data SessionError : Type 0 where
  session_not_valid : SessionError

module _ (hash : String → String) where
  abbrev pub new_session : (credential session_token : String) → ℕ → McpSession
  new_session credential session_token now = record {
    credential_hash = hash credential;
    session_token_hash = hash session_token;
    expires_at = now + session_ttl_ms;
    last_seen_at = now;
    closed_at = none;
  }

  -- What is returned is the address for messages, which is made of the id, the token and the
  -- credential. A row whose id is there already is overwritten.
  unfoldable pub create_session : (session_id session_token credential : String) → ℕ → Store → Store
  unfolding cleanup_expired_records set
  create_session session_id session_token credential now s =
      let cleaned = cleanup_expired_records now s in
      record cleaned {
        sessions = set session_id (new_session credential session_token now) cleaned.sessions;
      }

  -- The condition of `validateSession` on the row.
  abbrev pub is_valid : (credential session_token : String) → ℕ → McpSession → Bool
  is_valid credential session_token now session =
      str_eq session.credential_hash (hash credential)
      && str_eq session.session_token_hash (hash session_token)
      && (elim session.closed_at [ none ↦ true | some t ↦ false ])
      && ltb now session.expires_at

  unfoldable pub validate_session :
      (session_id credential session_token : String)
      → ℕ
      → Store
      → Result SessionError McpSession × Store
  unfolding get touch_session
  validate_session session_id credential session_token now s = elim (get session_id s.sessions) [
    | none ↦ (err session_not_valid, s)
    | some session ↦
        if is_valid credential session_token now session
        then (ok session, touch_session session_id now s)
        else (err session_not_valid, s)
  ]
