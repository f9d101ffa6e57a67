-- ===== src/Capability/Credentials/Runs.antt =====
-- What a call to create a key can do, and any sequence of calls on the table of keys. The users and the settings may be others in each.
use openviking_admin.Prelude.{
  ℕ, ◌<◌, String, ◌≡◌, ◌⊎◌, inl, inr, true, false, Option, some, List, [], ◌∷◌, ◌++◌, arith, eq_iff,
  Bool-cases, Option-cases, Result, ok, is_ok, Result-cases, leb,
}
use openviking_admin.Capability.Types.{ClientType}
use openviking_admin.Capability.Ttl as Ttl
use openviking_admin.Capability.Ttl.{resolve_credential_ttl_seconds}
use openviking_admin.Capability.Credentials.Table.{
  CapabilityKey, UserRow, Keys, set_last_used, count_of_user, remove_row, find_by_api_key,
  find_of_tenant, find_user, is_taken,
}
use openviking_admin.Capability.Credentials.{
  Environment, CredentialError, create_api_key, delete_key, resolve_principal_from_api_key, new_key,
  is_expired,
}

pub data Op : Type 0 where
  creates : (id text user_id tenant_id name : String) → Option (Option ℕ) → ℕ → Op
  deletes : (id tenant_id : String) → Op
  resolves : String → ClientType → ℕ → Op

unfoldable pub step : Environment → Op → Keys → Keys
step env (creates id text user_id tenant_id name ttl now) keys =
    (create_api_key env id text user_id tenant_id name ttl now keys).1
step env (deletes id tenant_id) keys = (delete_key id tenant_id keys).1
step env (resolves text client_type now) keys =
    (resolve_principal_from_api_key env text client_type now keys).1

unfoldable pub run : List (Environment × Op) → Keys → Keys
unfolding step
run [] keys = keys
run ((env, op) ∷ ops) keys = run ops (step env op keys)

module _ (env : Environment) (id text user_id tenant_id name : String) (ttl : Option (Option ℕ))
    (now : ℕ) (keys : Keys) where
  abbrev created : Result CredentialError CapabilityKey × Keys
  created = create_api_key env id text user_id tenant_id name ttl now keys

  -- The key is refused, or saved.
  abbrev pub IsRefusedOrSaved : Type 0
  IsRefusedOrSaved =
      ((is_ok created.0 ≡ false) × (created.1 ≡ keys))
      ⊎ ((life : Option ℕ) × (resolve_credential_ttl_seconds Ttl.api_key ttl ≡ ok life)
          × (count_of_user user_id keys < 10)
          × (is_taken id text keys ≡ false)
          × (created ≡ (
            ok (new_key id text user_id tenant_id name life now),
            keys ++ new_key id text user_id tenant_id name life now ∷ [],
          )))

  create_for :
      (user : UserRow) (life : Option ℕ)
      → find_user user_id tenant_id env.users ≡ some user
      → user.active ≡ true
      → resolve_credential_ttl_seconds Ttl.api_key ttl ≡ ok life
      → IsRefusedOrSaved
  unfolding create_api_key
  create_for user life e active l = elim (Bool-cases (leb 10 (count_of_user user_id keys))) [
    | inl full ↦ inl (ground arith)
    | inr some_left ↦ elim (Bool-cases (is_taken id text keys)) [
      | inl taken ↦ inl (ground arith)
      | inr free ↦ inr (life, l, ground arith, free, ground arith)
    ]
  ]

  pub create_api_key-IsRefusedOrSaved : IsRefusedOrSaved
  unfolding create_api_key
  create_api_key-IsRefusedOrSaved = elim (Option-cases (find_user user_id tenant_id env.users)) [
    | inl e ↦ inl (ground arith)
    | inr (user, e) ↦ elim (Bool-cases user.active) [
      | inr off ↦ inl (ground arith)
      | inl active ↦ elim (Result-cases (resolve_credential_ttl_seconds Ttl.api_key ttl)) [
        | inr (why, l) ↦ inl (ground arith)
        | inl (life, l) ↦ create_for user life e active l
      ]
    ]
  ]

  -- What holds of the table still does, if it does with a new row.
  pub create_api_key-preserves :
      (P : Keys → Type 0)
      → P keys
      → ((life : Option ℕ)
          → count_of_user user_id keys < 10
          → is_taken id text keys ≡ false
          → P (keys ++ new_key id text user_id tenant_id name life now ∷ []))
      → P created.1
  create_api_key-preserves P before after = elim create_api_key-IsRefusedOrSaved [
    | inl (refused, same) ↦ rw same before
    | inr (life, l, few, free, e) ↦ rw e (after life few free)
  ]

  -- What a key that was created is, and where it stands.
  pub create_api_key-saved :
      (key : CapabilityKey)
      → created.0 ≡ ok key
      → (life : Option ℕ) × (resolve_credential_ttl_seconds Ttl.api_key ttl ≡ ok life)
        × (new_key id text user_id tenant_id name life now ≡ key)
        × (is_taken id text keys ≡ false)
        × (created.1 ≡ keys ++ key ∷ [])
  create_api_key-saved key h = elim create_api_key-IsRefusedOrSaved [
    | inl (refused, same) ↦ absurd (cc)
    | inr (life, l, few, free, e) ↦ (life, l, cc, free, cc)
  ]

pub find_of_tenant-id :
    (id tenant_id : String) (keys : Keys) (key : CapabilityKey)
    → find_of_tenant id tenant_id keys ≡ some key
    → key.id ≡ id
unfolding find_of_tenant
find_of_tenant-id id tenant_id [] key h = absurd (cc)
find_of_tenant-id id tenant_id (k ∷ keys) key h =
    ground (arith, eq_iff k.id id, find_of_tenant-id id tenant_id keys key)

pub delete_key-effect :
    (id tenant_id : String) (keys : Keys)
    → ((delete_key id tenant_id keys).1 ≡ keys)
      ⊎ ((delete_key id tenant_id keys).1 ≡ remove_row id keys)
unfolding delete_key
delete_key-effect id tenant_id keys = elim (Option-cases (find_of_tenant id tenant_id keys)) [
  | inl e ↦ inl (ground (arith, e))
  | inr (key, e) ↦ inr (ground (arith, e, find_of_tenant-id id tenant_id keys key e))
]

pub use_key-effect :
    (env : Environment) (text : String) (client_type : ClientType) (now : ℕ) (keys : Keys)
    → ((resolve_principal_from_api_key env text client_type now keys).1 ≡ keys)
      ⊎ ((id : String) × ((resolve_principal_from_api_key env text client_type now keys).1
            ≡ set_last_used id now keys))
unfolding resolve_principal_from_api_key
use_key-effect env text client_type now keys = elim (Option-cases (find_by_api_key text keys)) [
  | inl e ↦ inl (ground (arith, e))
  | inr (key, e) ↦ elim (Bool-cases (is_expired now key)) [
    | inl late ↦ inl (ground (arith, e, late))
    | inr live ↦ inr (key.id, ground (arith, e, live))
  ]
]
