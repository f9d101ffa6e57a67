-- ===== src/Mcp/Sessions/Rows.antt =====
-- Any sequence of calls on the sessions, and what it does to the row of one of them.
use openviking_admin.Prelude.{
  ℕ, String, ◌≡◌, refl, ap, ◌∙◌, ◌≢◌, Option, none, some, List, [], ◌∷◌, arith, eq_iff, str_eq,
  str_ne, if◌then◌else◌, if_holds, get, HasUniqueKeys, fresh, mapped, get-modify,
  modify-HasUniqueKeys, get-set, get-sweep, set-HasUniqueKeys, sweep-HasUniqueKeys,
}
use openviking_admin.Mcp.Sessions.{
  McpSession, Store, is_session_over, cleanup_expired_records, update_session, touched,
  touch_session, closed, close_session, new_session, create_session, is_valid, validate_session,
}

pub data Op : Type 0 where
  creates : (session_id session_token credential : String) → ℕ → Op
  validates : (session_id credential session_token : String) → ℕ → Op
  touches : String → ℕ → Op
  closes : String → ℕ → Op

-- The call opens no session under this id.
abbrev pub IsOther : String → Op → Type 0
IsOther id (creates session_id session_token credential now) = session_id ≢ id
IsOther id _ = Unit

abbrev pub All : (Op → Type 0) → List Op → Type 0
All Q [] = Unit
All Q (op ∷ ops) = Q op × All Q ops

module _ (hash : String → String) where
  unfoldable pub step : Op → Store → Store
  step (creates session_id session_token credential now) s =
      create_session hash session_id session_token credential now s
  step (validates session_id credential session_token now) s =
      (validate_session hash session_id credential session_token now s).1
  step (touches session_id now) s = touch_session session_id now s
  step (closes session_id now) s = close_session session_id now s

  unfoldable pub run : List Op → Store → Store
  unfolding step
  run [] s = s
  run (op ∷ ops) s = run ops (step op s)

  -- What a call does to the row of the session `id`.
  abbrev pub row_step : String → Op → Option McpSession → Option McpSession
  row_step id (creates session_id session_token credential now) row =
      if str_eq session_id id
      then some (new_session hash credential session_token now)
      else fresh (is_session_over now) row
  row_step id (validates session_id credential session_token now) row =
      if str_eq session_id id
      then mapped
          (λ session.
            if is_valid hash credential session_token now session
            then touched now session
            else session)
          row
      else row
  row_step id (touches session_id now) row =
      if str_eq session_id id then mapped (touched now) row else row
  row_step id (closes session_id now) row =
      if str_eq session_id id then mapped (closed now) row else row

  create_session-row :
      (id session_id session_token credential : String) (now : ℕ) (s : Store)
      → HasUniqueKeys s.sessions
      → get id (step (creates session_id session_token credential now) s).sessions
        ≡ row_step id (creates session_id session_token credential now) (get id s.sessions)
  unfolding step create_session cleanup_expired_records
  create_session-row id session_id session_token credential now s u =
      rw (get-set, get-sweep (is_session_over now) id s.sessions u) refl

  pub validate_session-row :
      (id session_id credential session_token : String) (now : ℕ) (s : Store)
      → get id (validate_session hash session_id credential session_token now s).1.sessions
        ≡ row_step id (validates session_id credential session_token now) (get id s.sessions)
  unfolding validate_session touch_session update_session
  validate_session-row id session_id credential session_token now s =
      ground (arith, eq_iff session_id id, get-modify session_id id (touched now) s.sessions)

  step-row :
      (id : String) (op : Op) (s : Store)
      → HasUniqueKeys s.sessions
      → get id (step op s).sessions ≡ row_step id op (get id s.sessions)
  unfolding step
  step-row id (creates session_id session_token credential now) s u =
      create_session-row id session_id session_token credential now s u
  step-row id (validates session_id credential session_token now) s u =
      validate_session-row id session_id credential session_token now s
  step-row id (touches session_id now) s u =
      unfold touch_session update_session in get-modify session_id id (touched now) s.sessions
  step-row id (closes session_id now) s u =
      unfold close_session update_session in get-modify session_id id (closed now) s.sessions

  pub step-HasUniqueKeys :
      (op : Op) (s : Store) → HasUniqueKeys s.sessions → HasUniqueKeys (step op s).sessions
  unfolding step
  step-HasUniqueKeys (creates session_id session_token credential now) s u =
      unfold create_session cleanup_expired_records in
      set-HasUniqueKeys session_id _ _ (sweep-HasUniqueKeys (is_session_over now) s.sessions u)
  step-HasUniqueKeys (validates session_id credential session_token now) s u =
      unfold validate_session touch_session update_session in
      ground (arith, u, modify-HasUniqueKeys session_id (touched now) s.sessions u)
  step-HasUniqueKeys (touches session_id now) s u =
      unfold touch_session update_session in
      modify-HasUniqueKeys session_id (touched now) s.sessions u
  step-HasUniqueKeys (closes session_id now) s u =
      unfold close_session update_session in
      modify-HasUniqueKeys session_id (closed now) s.sessions u

  abbrev pub row_run : String → List Op → Option McpSession → Option McpSession
  row_run id [] row = row
  row_run id (op ∷ ops) row = row_run id ops (row_step id op row)

  -- The row of a session after any calls is made of its row of before.
  pub run-row :
      (id : String) (ops : List Op) (s : Store)
      → HasUniqueKeys s.sessions
      → get id (run ops s).sessions ≡ row_run id ops (get id s.sessions)
  unfolding run
  run-row id [] s u = refl
  run-row id (op ∷ ops) s u =
      run-row id ops (step op s) (step-HasUniqueKeys op s u)
      ∙ ap (row_run id ops) (step-row id op s u)

  mapped_holds :
      (P : Option McpSession → Type 0) (f : McpSession → McpSession) (row : Option McpSession)
      → ((session : McpSession) → P (some session) → P (some (f session)))
      → P row
      → P (mapped f row)
  mapped_holds P f none h p = p
  mapped_holds P f (some session) h p = h session p

  pub row_run-All :
      (id : String) (Q : Op → Type 0) (P : Option McpSession → Type 0)
      → ((op : Op) (row : Option McpSession) → Q op → P row → P (row_step id op row))
      → (ops : List Op) (row : Option McpSession) → All Q ops
      → P row
      → P (row_run id ops row)
  row_run-All id Q P h [] row q p = p
  row_run-All id Q P h (op ∷ ops) row (first, rest) p =
      row_run-All id Q P h ops (row_step id op row) rest (h op row first p)

  -- What holds of a row that is not there, and stays when the row is touched or closed, stays when
  -- no session is opened under its id.
  pub row_step-IsOther :
      (id : String) (P : Option McpSession → Type 0)
      → P none
      → ((now : ℕ) (session : McpSession) → P (some session) → P (some (touched now session)))
      → ((now : ℕ) (session : McpSession) → P (some session) → P (some (closed now session)))
      → (op : Op) (row : Option McpSession) → IsOther id op
      → P row
      → P (row_step id op row)
  row_step-IsOther id P gone touch close (creates session_id session_token credential now) row other
        p =
      rw (str_ne session_id id other) (swept row p)
    where
      swept : (row : Option McpSession) → P row → P (fresh (is_session_over now) row)
      swept none p = p
      swept (some session) p = if_holds P (is_session_over now session) none (some session) gone p
  row_step-IsOther id P gone touch close (validates session_id credential session_token now) row
        other p =
      if_holds P (str_eq session_id id) _ row
        (mapped_holds P _ row
          (λ session q.
            if_holds (λ x. P (some x)) (is_valid hash credential session_token now session) _
              session (touch now session q) q)
          p)
        p
  row_step-IsOther id P gone touch close (touches session_id now) row other p =
      if_holds P (str_eq session_id id) _ row (mapped_holds P (touched now) row (touch now) p) p
  row_step-IsOther id P gone touch close (closes session_id now) row other p =
      if_holds P (str_eq session_id id) _ row (mapped_holds P (closed now) row (close now) p) p
