-- ===== src/Ticket/Once.antt =====
-- A ticket is exchanged at most once, and only while it lives.
use openviking_admin.Prelude.{
  ℕ, ◌+◌, String, ◌≡◌, ap, ◌∙◌, ◌≢◌, none, List, [], ◌∷◌, arith, eq_iff, str_eq_refl, err, get,
  delete,
}
use openviking_admin.Prelude.{get-set, get-delete}
use openviking_admin.Ticket.{SsoExchangePayload, Tickets, create, expired_ticket, consume}

-- What users do with tickets.
pub data TicketEvent : Type 0 where
  creates : (ticket : String) (now : ℕ) (payload : SsoExchangePayload) → TicketEvent
  consumes : (ticket : String) (now : ℕ) → TicketEvent

abbrev pub run : List TicketEvent → Tickets → Tickets
run [] tickets = tickets
run (creates ticket now payload ∷ events) tickets = run events (create ticket now payload tickets)
run (consumes ticket now ∷ events) tickets = run events (consume ticket now tickets).1

-- No ticket is given out under this id.
abbrev pub Avoids : String → List TicketEvent → Type 0
Avoids ticket [] = Unit
Avoids ticket (creates other now payload ∷ events) = (other ≢ ticket) × Avoids ticket events
Avoids ticket (consumes other now ∷ events) = Avoids ticket events

consume-tickets :
    (ticket : String) (now : ℕ) (tickets : Tickets)
    → (consume ticket now tickets).1 ≡ delete ticket tickets
unfolding consume
consume-tickets ticket now tickets = ground arith

run-missing :
    (ticket : String) (events : List TicketEvent) (tickets : Tickets)
    → Avoids ticket events
    → get ticket tickets ≡ none
    → get ticket (run events tickets) ≡ none
unfolding create
run-missing ticket [] tickets avoids gone = gone
run-missing ticket (creates other now payload ∷ events) tickets (d, avoids) gone =
    run-missing ticket events _ avoids (
      ground (
        arith,
        eq_iff other ticket,
        d,
        gone,
        get-set other ticket (record { payload = payload; expires_at = now + 60000 }) tickets,
      ))
run-missing ticket (consumes other now ∷ events) tickets avoids gone =
    run-missing ticket events _ avoids (
      ap (get ticket) (consume-tickets other now tickets)
      ∙ ground (arith, gone, get-delete other ticket tickets))

-- Once a ticket was presented, in time or not, it is refused at every later time, whatever else is
-- created and consumed, unless its id is given out again.
pub consume_once :
    (ticket : String) (first second : ℕ) (events : List TicketEvent) (tickets : Tickets)
    → Avoids ticket events
    → (consume ticket second (run events (consume ticket first tickets).1)).0 ≡ err expired_ticket
unfolding consume
consume_once ticket first second events tickets avoids =
    let gone : get ticket (run events (consume ticket first tickets).1) ≡ none =
      run-missing ticket events (consume ticket first tickets).1 avoids (
        ap (get ticket) (consume-tickets ticket first tickets)
        ∙ ground (arith, str_eq_refl ticket, get-delete ticket ticket tickets)) in
    ground (arith, gone)
