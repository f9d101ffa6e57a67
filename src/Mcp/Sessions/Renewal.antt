-- ===== src/Mcp/Sessions/Renewal.antt =====
-- How long a session can be used.
use mathlib.Core.Path.{subst}
use openviking_admin.Prelude.{
  ℕ, ◌+◌, ◌≤◌, ◌<◌, String, ◌≡◌, sym, ◌≢◌, inl, inr, true, Option, none, some, List, arith, eq_iff,
  str_eq_refl, Option-cases, is_ok, get, HasUniqueKeys,
}
use openviking_admin.Mcp.Sessions.{McpSession, Store, session_ttl_ms, is_valid, validate_session}
use openviking_admin.Mcp.Sessions.Rows.{
  Op, creates, validates, touches, closes, step, run, row_step, run-row, validate_session-row,
  step-HasUniqueKeys, All, row_run-All,
}

-- The call comes between two times, and neither closes this session nor opens another under its id.
abbrev pub Keeps : String → ℕ → ℕ → Op → Type 0
Keeps id since until (creates session_id session_token credential now) =
    (session_id ≢ id) × (now ≤ until)
Keeps id since until (validates session_id credential session_token now) = since ≤ now
Keeps id since until (touches session_id now) = since ≤ now
Keeps id since until (closes session_id now) = session_id ≢ id

module _ (hash : String → String) (credential session_token : String) where
  -- The session is there and open, has these hashes, and lives until then at least.
  abbrev IsOpen : ℕ → Option McpSession → Type 0
  IsOpen until none = ⊥
  IsOpen until (some session) =
      (session.credential_hash ≡ hash credential)
      × (session.session_token_hash ≡ hash session_token)
      × (session.closed_at ≡ none)
      × (until ≤ session.expires_at)

  row_step-IsOpen :
      (id : String) (since : ℕ) (op : Op) (row : Option McpSession)
      → Keeps id since (since + session_ttl_ms) op
      → IsOpen (since + session_ttl_ms) row
      → IsOpen (since + session_ttl_ms) (row_step hash id op row)
  row_step-IsOpen id since op none k o = absurd o
  row_step-IsOpen id since (creates session_id token other now) (some session) (differs, k) o =
      ground (arith, eq_iff session_id id)
  row_step-IsOpen id since (validates session_id other token now) (some session) k o = ground arith
  row_step-IsOpen id since (touches session_id now) (some session) k o = ground arith
  row_step-IsOpen id since (closes session_id now) (some session) k o =
      ground (arith, eq_iff session_id id)

  validate_open :
      (id : String) (until later : ℕ) (s : Store)
      → later < until
      → IsOpen until (get id s.sessions)
      → is_ok (validate_session hash id credential session_token later s).0 ≡ true
  unfolding validate_session
  validate_open id until later s early o = elim (Option-cases (get id s.sessions)) [
    | inl e ↦ absurd (subst (IsOpen until) e o)
    | inr (session, e) ↦
        let (c, k, opened, lives) = subst (IsOpen until) e o in
        ground (arith, e, str_eq_refl (hash credential), str_eq_refl (hash session_token))
  ]

  validated-IsOpen :
      (id : String) (now : ℕ) (s : Store)
      → is_ok (validate_session hash id credential session_token now s).0 ≡ true
      → IsOpen
          (now + session_ttl_ms)
          (get id (validate_session hash id credential session_token now s).1.sessions)
  unfolding validate_session
  validated-IsOpen id now s v = elim (Option-cases (get id s.sessions)) [
    | inl e ↦ absurd (ground arith)
    | inr (session, e) ↦
        let valid : is_valid hash credential session_token now session ≡ true = ground arith in
        rw
          (validate_session-row hash id id credential session_token now s, e, str_eq_refl id, valid)
          (ground (
            arith,
            valid,
            eq_iff session.credential_hash (hash credential),
            eq_iff session.session_token_hash (hash session_token),
          ))
  ]

  -- A session that took a message takes the next one with the same credential and token within
  -- half an hour, whatever is done in between, other than closing it or opening another under its
  -- id, as long as the clock does not go back and records are cleaned up within that half an hour.
  pub validate_session_again :
      (id : String) (now later : ℕ) (s : Store) (ops : List Op)
      → HasUniqueKeys s.sessions
      → is_ok (validate_session hash id credential session_token now s).0 ≡ true
      → All (Keeps id now (now + session_ttl_ms)) ops
      → later < now + session_ttl_ms
      → is_ok
          (validate_session hash id credential session_token later
            (run hash ops (validate_session hash id credential session_token now s).1)).0
        ≡ true
  unfolding step
  validate_session_again id now later s ops u v k early =
      let row =
        run-row hash id ops (step hash (validates id credential session_token now) s)
          (step-HasUniqueKeys hash (validates id credential session_token now) s u) in
      validate_open id (now + session_ttl_ms) later _ early (
        subst (IsOpen (now + session_ttl_ms)) (sym row) (
          row_run-All hash id (Keeps id now (now + session_ttl_ms)) (IsOpen (now + session_ttl_ms))
            (row_step-IsOpen id now) ops _ k (validated-IsOpen id now s v)))
