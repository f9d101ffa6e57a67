-- ===== src/Ticket.antt =====
-- apps/server/src/auth/sso/sso-ticket.service.ts: tickets that exchange a sign-in once. The random id
-- of a new ticket is given. Times are milliseconds.
pub mod Once
mod Examples
use openviking_admin.Prelude.{
  ℕ, ◌+◌, String, Option, none, some, if◌then◌else◌, Result, ok, err, ltb, get, set, delete, Map,
}

pub record SsoUser : Type 0 where
  pub id : String
  pub username : String
  pub role : String
  pub tenant_id : Option String

pub record SsoExchangePayload : Type 0 where
  pub access_token : String
  pub refresh_token : Option String
  pub expires_in_seconds : Option ℕ
  pub refresh_expires_in_seconds : Option ℕ
  pub user : SsoUser

pub record TicketEntry : Type 0 where
  pub payload : SsoExchangePayload
  pub expires_at : ℕ

abbrev pub Tickets : Type 0
Tickets = Map TicketEntry

unfoldable pub create : String → ℕ → SsoExchangePayload → Tickets → Tickets
unfolding set
create ticket now payload tickets =
    set ticket (record { payload = payload; expires_at = now + 60000 }) tickets

-- HTTP 401
pub data Unauthorized : Type 0 where
  expired_ticket : Unauthorized

unfoldable pub consume : String → ℕ → Tickets → Result Unauthorized SsoExchangePayload × Tickets
unfolding get delete
consume ticket now tickets = elim (get ticket tickets) [
  | none ↦ (err expired_ticket, delete ticket tickets)
  | some entry ↦
      if ltb entry.expires_at now
      then (err expired_ticket, delete ticket tickets)
      else (ok entry.payload, delete ticket tickets)
]
