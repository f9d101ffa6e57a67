-- ===== src/Mcp/Sessions/Closing.antt =====
-- Which messages a session takes: those with its own credential and token, and none once it is
-- closed.
use mathlib.Core.Path.{subst}
use openviking_admin.Prelude.{
  ℕ, String, ◌≡◌, refl, sym, inl, inr, Bool, true, false, Option, none, some, List, arith, eq_iff,
  str_eq_refl, Option-cases, err, is_ok, get, HasUniqueKeys, get-modify, get-set,
}
use openviking_admin.Mcp.Sessions.{
  McpSession, Store, update_session, closed, close_session, session_not_valid, create_session,
  validate_session,
}
use openviking_admin.Mcp.Sessions.Rows.{
  Op, creates, closes, step, run, row_run, run-row, step-HasUniqueKeys, All, IsOther, row_run-All,
  row_step-IsOther,
}

abbrev is_closed : Option McpSession → Bool
is_closed none = true
is_closed (some session) = elim session.closed_at [ none ↦ false | some t ↦ true ]

module _ (hash : String → String) where
  row_run_closed :
      (id : String) (ops : List Op) (row : Option McpSession)
      → All (IsOther id) ops
      → is_closed row ≡ true
      → is_closed (row_run hash id ops row) ≡ true
  row_run_closed id =
      row_run-All hash id (IsOther id) (λ row. is_closed row ≡ true)
        (row_step-IsOther hash id (λ row. is_closed row ≡ true) refl (λ now session h. h)
          (λ now session h. refl))

  validate_closed :
      (id credential session_token : String) (now : ℕ) (s : Store)
      → is_closed (get id s.sessions) ≡ true
      → (validate_session hash id credential session_token now s).0 ≡ err session_not_valid
  unfolding validate_session
  validate_closed id credential session_token now s h = ground arith

  -- Once a session was closed, no message is taken for it at any later time, whatever is opened,
  -- used and closed, unless its id is given out again.
  pub close_session-validate :
      (id : String) (closing later : ℕ) (s : Store) (ops : List Op)
      (credential session_token : String)
      → HasUniqueKeys s.sessions
      → All (IsOther id) ops
      → (validate_session hash id credential session_token later
          (run hash ops (close_session id closing s))).0
        ≡ err session_not_valid
  unfolding close_session step
  close_session-validate id closing later s ops credential session_token u n =
      validate_closed id credential session_token later _ (
        rw
          (run-row hash id ops (close_session id closing s)
            (step-HasUniqueKeys hash (closes id closing) s u))
          (row_run_closed id ops _ n (
            unfold close_session update_session in
            ground (arith, get-modify id id (closed closing) s.sessions, str_eq_refl id))))

  -- The row has these hashes, if it is there.
  abbrev HasHashes : String → String → Option McpSession → Type 0
  HasHashes c k none = Unit
  HasHashes c k (some session) = (session.credential_hash ≡ c) × (session.session_token_hash ≡ k)

  row_run-HasHashes :
      (id c k : String) (ops : List Op) (row : Option McpSession)
      → All (IsOther id) ops
      → HasHashes c k row
      → HasHashes c k (row_run hash id ops row)
  row_run-HasHashes id c k =
      row_run-All hash id (IsOther id) (HasHashes c k)
        (row_step-IsOther hash id (HasHashes c k) tt (λ now session h. h) (λ now session h. h))

  valid-HasHashes :
      (id credential session_token c k : String) (now : ℕ) (s : Store)
      → HasHashes c k (get id s.sessions)
      → is_ok (validate_session hash id credential session_token now s).0 ≡ true
      → (hash credential ≡ c) × (hash session_token ≡ k)
  unfolding validate_session
  valid-HasHashes id credential session_token c k now s h v =
      elim (Option-cases (get id s.sessions)) [
        | inl e ↦ absurd (ground arith)
        | inr (session, e) ↦
            let (same_c, same_k) = subst (HasHashes c k) e h in
            ground (
              arith,
              eq_iff session.credential_hash (hash credential),
              eq_iff session.session_token_hash (hash session_token),
            )
      ]

  -- A session only takes messages with the credential and the token with which it was opened,
  -- whatever is opened, used and closed in between, unless its id is given out again; where
  -- different texts have different hashes.
  pub create_session-validate :
      (id session_token credential : String) (opening later : ℕ) (s : Store) (ops : List Op)
      (shown_credential shown_token : String)
      → ((x y : String) → hash x ≡ hash y → x ≡ y)
      → HasUniqueKeys s.sessions
      → All (IsOther id) ops
      → is_ok
          (validate_session hash id shown_credential shown_token later
            (run hash ops (create_session hash id session_token credential opening s))).0
        ≡ true
      → (shown_credential ≡ credential) × (shown_token ≡ session_token)
  unfolding step create_session
  create_session-validate id session_token credential opening later s ops shown_credential
        shown_token injective u n v =
      let row =
        run-row hash id ops (step hash (creates id session_token credential opening) s)
          (step-HasUniqueKeys hash (creates id session_token credential opening) s u) in
      let before : HasHashes (hash credential) (hash session_token)
          (get id (create_session hash id session_token credential opening s).sessions) =
        rw (get-set, str_eq_refl id) (refl, refl) in
      let (c, k) =
        valid-HasHashes id shown_credential shown_token _ _ later _
          (subst (HasHashes (hash credential) (hash session_token)) (sym row)
            (row_run-HasHashes id _ _ ops _ n before))
          v in
      (injective _ _ c, injective _ _ k)
