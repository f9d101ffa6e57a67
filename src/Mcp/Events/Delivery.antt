-- ===== src/Mcp/Events/Delivery.antt =====
-- An event is sent at most once.
use mathlib.Core.Path.{subst}
use openviking_admin.Prelude.{
  ℕ, String, ◌≡◌, refl, sym, ◌≢◌, inl, inr, Bool, true, false, ◌&&◌, ◌||◌, Option, none, some, List,
  [], ◌∷◌, map, arith, eq_iff, str_eq, str_eq_refl, if◌then◌else◌, Bool-cases, In,
}
use openviking_admin.Mcp.Events.{
  McpSessionEvent, PendingEvent, Events, keep_events, enqueue_event, is_pending, is_listed,
  mark_delivered, shown, pull_found, pull_pending_events,
}
use openviking_admin.Mcp.Events.Order.{pull_found_oldest}

-- Some row with this id was not sent yet.
abbrev pub awaits : String → Events → Bool
awaits id [] = false
awaits id (event ∷ events) =
    (str_eq event.id id && (elim event.delivered_at [ none ↦ true | some t ↦ false ]))
    || awaits id events

pub data Op : Type 0 where
  enqueues : (id session_id payload : String) → Option String → ℕ → Op
  pulls : String → ℕ → Op
  cleans : ℕ → Op

unfoldable pub step : Op → Events → Events
step (enqueues id session_id payload event_type now) events =
    enqueue_event id session_id payload event_type now events
step (pulls session_id now) events = (pull_pending_events session_id now events).1
step (cleans now) events = keep_events now events

unfoldable pub run : List Op → Events → Events
unfolding step
run [] events = events
run (op ∷ ops) events = run ops (step op events)

-- No call saves an event under this id.
abbrev pub NeverEnqueues : String → List Op → Type 0
NeverEnqueues id [] = Unit
NeverEnqueues id (enqueues other session_id payload event_type now ∷ ops) =
    (other ≢ id) × NeverEnqueues id ops
NeverEnqueues id (_ ∷ ops) = NeverEnqueues id ops

awaits-keep_events :
    (id : String) (now : ℕ) (events : Events)
    → awaits id events ≡ false
    → awaits id (keep_events now events) ≡ false
unfolding keep_events
awaits-keep_events id now [] h = refl
awaits-keep_events id now (event ∷ events) h = ground (arith, awaits-keep_events id now events)

awaits-enqueue_event :
    (id other session_id payload : String) (event_type : Option String) (now : ℕ) (events : Events)
    → other ≢ id
    → awaits id events ≡ false
    → awaits id (enqueue_event other session_id payload event_type now events) ≡ false
unfolding enqueue_event
awaits-enqueue_event id other session_id payload event_type now [] differs h =
    ground (arith, eq_iff other id)
awaits-enqueue_event id other session_id payload event_type now (event ∷ events) differs h =
    ground (arith, awaits-enqueue_event id other session_id payload event_type now events differs)

awaits-mark_delivered :
    (id : String) (now : ℕ) (found events : Events)
    → awaits id (mark_delivered now found events)
      ≡ (if is_listed id found then false else awaits id events)
unfolding mark_delivered
awaits-mark_delivered id now found [] = ground arith
awaits-mark_delivered id now found (event ∷ events) =
    ground (arith, eq_iff event.id id, awaits-mark_delivered id now found events)

awaits-pull_pending_events :
    (id session_id : String) (now : ℕ) (events : Events)
    → awaits id events ≡ false
    → awaits id (pull_pending_events session_id now events).1 ≡ false
unfolding pull_pending_events
awaits-pull_pending_events id session_id now events h =
    let found = pull_found session_id now events in
    elim (Bool-cases (is_listed id found)) [
      | inl sent ↦ rw (awaits-mark_delivered id now found events, sent) refl
      | inr other ↦ rw (awaits-mark_delivered id now found events, other) h
    ]

run_sent :
    (id : String) (ops : List Op) (events : Events)
    → NeverEnqueues id ops
    → awaits id events ≡ false
    → awaits id (run ops events) ≡ false
unfolding run step
run_sent id [] events n h = h
run_sent id (enqueues other session_id payload event_type now ∷ ops) events (differs, n) h =
    run_sent id ops _ n
      (awaits-enqueue_event id other session_id payload event_type now events differs h)
run_sent id (pulls session_id now ∷ ops) events n h =
    run_sent id ops _ n (awaits-pull_pending_events id session_id now events h)
run_sent id (cleans now ∷ ops) events n h = run_sent id ops _ n (awaits-keep_events id now events h)

In-awaits :
    (session_id : String) (now : ℕ) (y : McpSessionEvent) (events : Events)
    → is_pending session_id now y ≡ true
    → In y events
    → awaits y.id events ≡ true
In-awaits session_id now y [] p m = absurd m
In-awaits session_id now y (event ∷ events) p (inl e) =
    subst (λ x. awaits y.id (x ∷ events) ≡ true) (sym e) (ground (arith, str_eq_refl y.id))
In-awaits session_id now y (event ∷ events) p (inr m) =
    ground (arith, In-awaits session_id now y events p m)

In-is_listed :
    (found : Events) (p : PendingEvent)
    → In p (map shown found)
    → (is_listed p.id found ≡ true) × ((y : McpSessionEvent) × In y found × (shown y ≡ p))
unfolding is_listed
In-is_listed [] p m = absurd m
In-is_listed (event ∷ found) p (inl e) = (
  subst (λ (x : PendingEvent). is_listed x.id (event ∷ found) ≡ true) e
      (rw (str_eq_refl event.id) refl),
  (event, inl refl, e),
)
In-is_listed (event ∷ found) p (inr m) =
    let (listed, (y, k, e)) = In-is_listed found p m in (ground (arith, listed), (y, inr k, e))

-- An event that was sent is not sent again, to whatever session, at whatever times events are
-- saved, sent and cleaned up, unless its id is given out again.
pub pull_pending_events_once :
    (session_id other : String) (now later : ℕ) (events : Events) (ops : List Op)
    (first second : PendingEvent)
    → In first (pull_pending_events session_id now events).0
    → NeverEnqueues first.id ops
    → In second
        (pull_pending_events other later (run ops (pull_pending_events session_id now events).1)).0
    → second.id ≢ first.id
unfolding pull_pending_events
pull_pending_events_once session_id other now later events ops first second m n m' same =
    let found = pull_found session_id now events in
    let after = run ops (mark_delivered now found events) in
    let sent =
      run_sent first.id ops (mark_delivered now found events) n (
        rw (awaits-mark_delivered first.id now found events, (In-is_listed found first m).0)
          refl) in
    let (listed, (y, k, e)) = In-is_listed (pull_found other later after) second m' in
    let (p, there) = (pull_found_oldest other later after y).0 k in
    let waits = In-awaits other later y after p there in absurd (cc)
