-- ===== src/Ticket/Examples.antt =====
-- Tests of tickets, and the theorems at concrete tickets.
use openviking_admin.Prelude.{eq_iff, arith, ◌≡◌, refl, none, [], ◌∷◌, arith, err, get, set}
use openviking_admin.Ticket.{SsoExchangePayload, Tickets, create, consume, expired_ticket}
use openviking_admin.Ticket.Once.{creates, consumes, run, consume_once}

abbrev payload : SsoExchangePayload
payload = record {
  access_token = "a";
  refresh_token = none;
  expires_in_seconds = none;
  refresh_expires_in_seconds = none;
  user = record { id = "1"; username = "alice"; role = "tenant_viewer"; tenant_id = none };
}

abbrev tickets : Tickets
tickets = create "x" 100 payload []

consume_once_example :
    (consume "x" 300
      (run (creates "y" 250 payload ∷ consumes "y" 260 ∷ []) (consume "x" 200 tickets).1)).0
    ≡ err expired_ticket
consume_once_example =
    consume_once "x" 200 300 (creates "y" 250 payload ∷ consumes "y" 260 ∷ []) tickets
      ((λ e. ground (arith, (eq_iff "y" "x").1 e)), tt)

one_later : (consume "x" 60101 tickets).0 ≡ err expired_ticket
unfolding consume create get set
one_later = refl
