-- ===== src/Mcp/Events/Order.antt =====
-- Which events a session is sent, and in which order.
use openviking_admin.Prelude.{
  ℕ, ◌≤◌, String, ◌≡◌, sym, ap, ◌∙◌, ◌↔◌, ◌⊎◌, inl, inr, true, [], ◌∷◌, In, In-if, length,
  take-sort_by,
}
use openviking_admin.Mcp.Events.{
  McpSessionEvent, Events, is_pending, pending, order_by_created_at, pull_found,
}

In-pending :
    (session_id : String) (now : ℕ) (events : Events) (y : McpSessionEvent)
    → In y (pending session_id now events) ↔ ((is_pending session_id now y ≡ true) × In y events)
unfolding pending
In-pending session_id now [] y = (λ m. absurd m, λ (p, m). absurd m)
In-pending session_id now (event ∷ events) y =
    let step = In-if y event (is_pending session_id now event) (pending session_id now events) in
    let rest = In-pending session_id now events y in
    (
      λ m. elim (step.0 m) [
        | inl (p, e) ↦ (ap (λ x. is_pending session_id now x) (sym e) ∙ p, inl e)
        | inr n ↦ let (p, k) = rest.0 n in (p, inr k)
      ],
      λ (p, m). elim m [
        | inl e ↦ step.1 (inl (ap (λ x. is_pending session_id now x) e ∙ p, e))
        | inr n ↦ step.1 (inr (rest.1 (p, n)))
      ],
    )

-- What is sent are events of the session that are waiting and have not expired; and each such event
-- is sent, unless fifty others that are no younger are.
pub pull_found_oldest :
    (session_id : String) (now : ℕ) (events : Events) (y : McpSessionEvent)
    → (In y (pull_found session_id now events) → (is_pending session_id now y ≡ true) × In y events)
      × ((is_pending session_id now y ≡ true)
          → In y events
          → In y (pull_found session_id now events)
            ⊎ (((x : McpSessionEvent)
                  → In x (pull_found session_id now events)
                  → x.created_at ≤ y.created_at)
                × (length (pull_found session_id now events) ≡ 50)))
unfolding pull_found order_by_created_at
pull_found_oldest session_id now events y =
    let sorted = take-sort_by (λ event. event.created_at) 50 (pending session_id now events) y in
    let chosen = In-pending session_id now events y in
    (λ m. chosen.0 (sorted.0 m), λ p m. sorted.1 (chosen.1 (p, m)))
