-- ===== src/Capability/Credentials/Lookup.antt =====
-- How long a key is good for its user.
use mathlib.Core.Path.{subst}
use openviking_admin.Prelude.{
  ap, ◌∙◌, sym, Result, ◌>>=◌, leb, true, ◌≤◌, ◌<◌, ◌+◌, ◌*◌, ℕ, String, ◌≡◌, refl, ◌≢◌, inl, inr,
  false, Option, none, some, List, [], ◌∷◌, ◌++◌, arith, eq_iff, str_eq, str_eq_refl, if◌then◌else◌,
  Bool-cases, ok, err,
}
use openviking_admin.Capability.Types.{ClientType, Principal, api_key}
use openviking_admin.Capability.Credentials.Table.{
  find_user, CapabilityKey, Keys, set_last_used, remove_row, find_by_api_key, is_taken, used,
}
use openviking_admin.Capability.Credentials.{
  CredentialError, load_ov_config_for_tenant, resolve_tenant_scope, Environment, expired_api_key,
  create_api_key, delete_key, resolve_principal_from_api_key, new_key, is_expired, principal_of_key,
}
use openviking_admin.Capability.Credentials.Runs.{
  Op, creates, deletes, resolves, step, run, create_api_key-saved, create_api_key-preserves,
  delete_key-effect, use_key-effect,
}

create_finds :
    (key : CapabilityKey) (keys : Keys)
    → is_taken key.id key.api_key keys ≡ false
    → find_by_api_key key.api_key (keys ++ key ∷ []) ≡ some key
unfolding is_taken find_by_api_key
create_finds key [] h = rw (str_eq_refl key.api_key) refl
create_finds key (k ∷ keys) h = ground (arith, create_finds key keys)

find_by_api_key-append :
    (text : String) (keys more : Keys) (key : CapabilityKey)
    → find_by_api_key text keys ≡ some key
    → find_by_api_key text (keys ++ more) ≡ some key
unfolding find_by_api_key
find_by_api_key-append text [] more key h = absurd (cc)
find_by_api_key-append text (k ∷ keys) more key h =
    ground (arith, find_by_api_key-append text keys more key)

find_by_api_key-remove_row :
    (text id : String) (keys : Keys) (key : CapabilityKey)
    → key.id ≢ id
    → find_by_api_key text keys ≡ some key
    → find_by_api_key text (remove_row id keys) ≡ some key
unfolding find_by_api_key remove_row
find_by_api_key-remove_row text id [] key other h = absurd (cc)
find_by_api_key-remove_row text id (k ∷ keys) key other h =
    ground (arith, eq_iff k.id id, find_by_api_key-remove_row text id keys key other)

find_by_api_key-set_last_used :
    (text id : String) (now : ℕ) (keys : Keys)
    → find_by_api_key text (set_last_used id now keys) ≡ elim (find_by_api_key text keys) [
      | none ↦ none
      | some key ↦ some (if str_eq key.id id then used now key else key)
    ]
unfolding find_by_api_key set_last_used
find_by_api_key-set_last_used text id now [] = refl
find_by_api_key-set_last_used text id now (k ∷ keys) =
    ground (arith, find_by_api_key-set_last_used text id now keys)

-- The row of the key is found by its text, whenever it was used last.
abbrev Holds : CapabilityKey → Keys → Type 0
Holds key keys =
    (at : Option ℕ) × (find_by_api_key key.api_key keys ≡ some (record key { last_used_at = at }))

-- No call deletes this key.
abbrev pub Spares : String → List (Environment × Op) → Type 0
Spares id [] = Unit
Spares id ((env, deletes other tenant_id) ∷ ops) = (id ≢ other) × Spares id ops
Spares id (_ ∷ ops) = Spares id ops

use_key-Holds :
    (key : CapabilityKey) (env : Environment) (text : String) (client_type : ClientType) (now : ℕ)
    (keys : Keys)
    → Holds key keys
    → Holds key (resolve_principal_from_api_key env text client_type now keys).1
use_key-Holds key env text client_type now keys (at, h) =
    elim (use_key-effect env text client_type now keys) [
      | inl e ↦ rw e (at, h)
      | inr (id, e) ↦ elim (Bool-cases (str_eq key.id id)) [
        | inl same ↦ rw e (some now, rw (find_by_api_key-set_last_used, h, same) refl)
        | inr other ↦ rw e (at, rw (find_by_api_key-set_last_used, h, other) refl)
      ]
    ]

create_api_key-Holds :
    (key : CapabilityKey) (env : Environment) (id text user_id tenant_id name : String)
    (ttl : Option (Option ℕ)) (now : ℕ) (keys : Keys)
    → Holds key keys
    → Holds key (create_api_key env id text user_id tenant_id name ttl now keys).1
create_api_key-Holds key env id text user_id tenant_id name ttl now keys (at, h) =
    create_api_key-preserves env id text user_id tenant_id name ttl now keys (Holds key) (at, h)
      λ life few free. (at, find_by_api_key-append key.api_key keys _ _ h)

delete_key-Holds :
    (key : CapabilityKey) (id tenant_id : String) (keys : Keys)
    → key.id ≢ id
    → Holds key keys
    → Holds key (delete_key id tenant_id keys).1
delete_key-Holds key id tenant_id keys other (at, h) = elim (delete_key-effect id tenant_id keys) [
  | inl e ↦ rw e (at, h)
  | inr e ↦ rw e (at, find_by_api_key-remove_row key.api_key id keys _ other h)
]

run-Holds :
    (key : CapabilityKey) (ops : List (Environment × Op)) (keys : Keys)
    → Spares key.id ops
    → Holds key keys
    → Holds key (run ops keys)
unfolding run step
run-Holds key [] keys s h = h
run-Holds key ((env, creates id text user_id tenant_id name ttl now) ∷ ops) keys s h =
    run-Holds key ops _ s
      (create_api_key-Holds key env id text user_id tenant_id name ttl now keys h)
run-Holds key ((env, deletes id tenant_id) ∷ ops) keys (other, s) h =
    run-Holds key ops _ s (delete_key-Holds key id tenant_id keys other h)
run-Holds key ((env, resolves text client_type now) ∷ ops) keys s h =
    run-Holds key ops _ s (use_key-Holds key env text client_type now keys h)

Holds-resolve :
    (key : CapabilityKey) (env : Environment) (client_type : ClientType) (now : ℕ) (keys : Keys)
    → Holds key keys
    → (resolve_principal_from_api_key env key.api_key client_type now keys).0
      ≡ (if is_expired now key then err expired_api_key else principal_of_key env client_type key)
unfolding resolve_principal_from_api_key principal_of_key
Holds-resolve key env client_type now keys (at, h) = ground arith

-- What a key of this user of this tenant comes to, spelled out.
abbrev pub StandsFor :
    Environment
    → (user_id tenant_id : String) → ClientType
    → ℕ
    → CapabilityKey
    → Result CredentialError Principal
    → Type 0
StandsFor env user_id tenant_id client_type now key answer =
    (key.user_id ≡ user_id)
    × (key.tenant_id ≡ tenant_id)
    × ((t : ℕ) → key.expires_at ≡ some t → t ≤ now → answer ≡ err expired_api_key)
    × (((t : ℕ) → key.expires_at ≡ some t → now < t)
        → answer ≡ do
          ov_config ← load_ov_config_for_tenant env tenant_id
          tenant_scope ← resolve_tenant_scope env tenant_id
          ok (record {
            user_id = user_id;
            username = elim (find_user user_id tenant_id env.users) [
              | none ↦ none
              | some user ↦ some user.username
            ];
            tenant_id = some tenant_scope;
            role = elim (find_user user_id tenant_id env.users) [
              | none ↦ none
              | some user ↦ some user.role
            ];
            scope = "tenant";
            credential_type = api_key;
            client_type = client_type;
            ov_config = ov_config;
          }))

new_key-StandsFor :
    (env : Environment) (id text user_id tenant_id name : String) (life : Option ℕ) (created : ℕ)
    (client_type : ClientType) (now : ℕ) (answer : Result CredentialError Principal)
    → answer ≡ (
        if is_expired now (new_key id text user_id tenant_id name life created)
        then err expired_api_key
        else principal_of_key env client_type (new_key id text user_id tenant_id name life created))
    → StandsFor env user_id tenant_id client_type now
        (new_key id text user_id tenant_id name life created)
        answer
unfolding principal_of_key
new_key-StandsFor env id text user_id tenant_id name none created client_type now answer h =
    (refl, refl, λ t e past. absurd (cc), λ future. h)
new_key-StandsFor env id text user_id tenant_id name (some s) created client_type now answer h = (
  refl,
  refl,
  λ t e past.
      let over : leb (created + s * 1000) now ≡ true = ground (arith, e, past) in rw over at h,
  λ future.
      let before : now < created + s * 1000 = future (created + s * 1000) refl in
      let live : leb (created + s * 1000) now ≡ false = ground (arith, before) in rw live at h,
)

-- A key that was created for a user of a tenant is refused from its end on, and stands for this
-- user in this tenant before, or for ever where it has no end, whatever is done with the table in
-- between, other than deleting this key.
pub create_api_key-resolve :
    (env : Environment) (id text user_id tenant_id name : String) (ttl : Option (Option ℕ))
    (created : ℕ) (keys : Keys) (key : CapabilityKey) (ops : List (Environment × Op))
    (later_env : Environment) (client_type : ClientType) (later : ℕ)
    → (create_api_key env id text user_id tenant_id name ttl created keys).0 ≡ ok key
    → Spares id ops
    → StandsFor later_env user_id tenant_id client_type later key
        (resolve_principal_from_api_key later_env text client_type later
          (run ops (create_api_key env id text user_id tenant_id name ttl created keys).1)).0
create_api_key-resolve env id text user_id tenant_id name ttl created keys key ops later_env
      client_type later h s =
    let (life, l, e, free, saved) =
      create_api_key-saved env id text user_id tenant_id name ttl created keys key h in
    let made = new_key id text user_id tenant_id name life created in
    let stored : (create_api_key env id text user_id tenant_id name ttl created keys).1
        ≡ keys ++ made ∷ [] =
      saved ∙ ap (λ k. keys ++ k ∷ []) (sym e) in
    let there : Holds made (keys ++ made ∷ []) = (none, create_finds made keys free) in
    subst
      (λ k.
        StandsFor later_env user_id tenant_id client_type later k
          (resolve_principal_from_api_key later_env text client_type later
            (run ops (create_api_key env id text user_id tenant_id name ttl created keys).1)).0)
      e
      (new_key-StandsFor later_env id text user_id tenant_id name life created client_type later _ (
        Holds-resolve made later_env client_type later _
          (run-Holds made ops _ s (rw stored there))))
