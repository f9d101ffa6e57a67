-- ===== src/Capability/Credentials/Revocation.antt =====
-- A key that is deleted.
use openviking_admin.Prelude.{
  ℕ, String, ◌≡◌, refl, ◌≢◌, inl, inr, false, none, some, List, [], ◌∷◌, ◌++◌, arith, eq_iff, err,
}
use openviking_admin.Capability.Types.{ClientType}
use openviking_admin.Capability.Credentials.Table.{
  CapabilityKey, Keys, set_last_used, remove_row, find_by_api_key, find_of_tenant, is_taken,
}
use openviking_admin.Capability.Credentials.{
  Environment, invalid_api_key, delete_key, resolve_principal_from_api_key,
}
use openviking_admin.Capability.Credentials.Runs.{
  Op, creates, deletes, resolves, step, run, create_api_key-preserves, delete_key-effect,
  find_of_tenant-id, use_key-effect,
}

-- No text of a key stands twice, as the column's constraint says.
abbrev pub HasUniqueTexts : Keys → Type 0
HasUniqueTexts [] = Unit
HasUniqueTexts (key ∷ keys) = (find_by_api_key key.api_key keys ≡ none) × HasUniqueTexts keys

missing-append :
    (text : String) (keys : Keys) (key : CapabilityKey)
    → find_by_api_key text keys ≡ none
    → key.api_key ≢ text
    → find_by_api_key text (keys ++ key ∷ []) ≡ none
unfolding find_by_api_key
missing-append text [] key h other = ground (arith, eq_iff key.api_key text)
missing-append text (k ∷ keys) key h other = ground (arith, missing-append text keys key)

missing-remove_row :
    (text id : String) (keys : Keys)
    → find_by_api_key text keys ≡ none
    → find_by_api_key text (remove_row id keys) ≡ none
unfolding find_by_api_key remove_row
missing-remove_row text id [] h = refl
missing-remove_row text id (k ∷ keys) h = ground (arith, missing-remove_row text id keys)

missing-set_last_used :
    (text id : String) (now : ℕ) (keys : Keys)
    → find_by_api_key text keys ≡ none
    → find_by_api_key text (set_last_used id now keys) ≡ none
unfolding find_by_api_key set_last_used
missing-set_last_used text id now [] h = refl
missing-set_last_used text id now (k ∷ keys) h =
    ground (arith, missing-set_last_used text id now keys)

append-HasUniqueTexts :
    (keys : Keys) (key : CapabilityKey)
    → HasUniqueTexts keys
    → is_taken key.id key.api_key keys ≡ false
    → HasUniqueTexts (keys ++ key ∷ [])
unfolding is_taken
append-HasUniqueTexts [] key h free = (unfold find_by_api_key in refl, tt)
append-HasUniqueTexts (k ∷ keys) key (first, rest) free = (
  missing-append k.api_key keys key first (λ e. ground (arith, eq_iff k.api_key key.api_key)),
  append-HasUniqueTexts keys key rest (ground arith),
)

remove_row-HasUniqueTexts :
    (id : String) (keys : Keys) → HasUniqueTexts keys → HasUniqueTexts (remove_row id keys)
unfolding remove_row
remove_row-HasUniqueTexts id [] h = tt
remove_row-HasUniqueTexts id (k ∷ keys) (first, rest) =
    ground
      (arith, missing-remove_row k.api_key id keys first, remove_row-HasUniqueTexts id keys rest)

set_last_used-HasUniqueTexts :
    (id : String) (now : ℕ) (keys : Keys)
    → HasUniqueTexts keys
    → HasUniqueTexts (set_last_used id now keys)
unfolding set_last_used
set_last_used-HasUniqueTexts id now [] h = tt
set_last_used-HasUniqueTexts id now (k ∷ keys) (first, rest) = ground (
  arith,
  missing-set_last_used k.api_key id now keys first,
  set_last_used-HasUniqueTexts id now keys rest,
)

step-HasUniqueTexts :
    (env : Environment) (op : Op) (keys : Keys)
    → HasUniqueTexts keys
    → HasUniqueTexts (step env op keys)
unfolding step
step-HasUniqueTexts env (creates id text user_id tenant_id name ttl now) keys h =
    create_api_key-preserves env id text user_id tenant_id name ttl now keys HasUniqueTexts h
      λ life few free. append-HasUniqueTexts keys _ h free
step-HasUniqueTexts env (deletes id tenant_id) keys h = elim (delete_key-effect id tenant_id keys) [
  | inl e ↦ rw e h
  | inr e ↦ rw e (remove_row-HasUniqueTexts id keys h)
]
step-HasUniqueTexts env (resolves text client_type now) keys h =
    elim (use_key-effect env text client_type now keys) [
      | inl e ↦ rw e h
      | inr (id, e) ↦ rw e (set_last_used-HasUniqueTexts id now keys h)
    ]

-- No call creates a key with this text.
abbrev pub NeverCreates : String → List (Environment × Op) → Type 0
NeverCreates text [] = Unit
NeverCreates text ((env, creates id other user_id tenant_id name ttl now) ∷ ops) =
    (other ≢ text) × NeverCreates text ops
NeverCreates text (_ ∷ ops) = NeverCreates text ops

run_missing :
    (text : String) (ops : List (Environment × Op)) (keys : Keys)
    → NeverCreates text ops
    → find_by_api_key text keys ≡ none
    → find_by_api_key text (run ops keys) ≡ none
unfolding run step
run_missing text [] keys n h = h
run_missing text ((env, creates id other user_id tenant_id name ttl now) ∷ ops) keys (differs, n)
      h =
    run_missing text ops _ n (
      create_api_key-preserves env id other user_id tenant_id name ttl now keys
        (λ ks. find_by_api_key text ks ≡ none) h
        λ life few free. missing-append text keys _ h differs)
run_missing text ((env, deletes id tenant_id) ∷ ops) keys n h =
    run_missing text ops _ n (elim (delete_key-effect id tenant_id keys) [
      | inl e ↦ rw e h
      | inr e ↦ rw e (missing-remove_row text id keys h)
    ])
run_missing text ((env, resolves other client_type now) ∷ ops) keys n h =
    run_missing text ops _ n (elim (use_key-effect env other client_type now keys) [
      | inl e ↦ rw e h
      | inr (id, e) ↦ rw e (missing-set_last_used text id now keys h)
    ])

found_text :
    (id tenant_id : String) (keys : Keys) (key : CapabilityKey)
    → find_of_tenant id tenant_id keys ≡ some key
    → find_by_api_key key.api_key keys ≢ none
unfolding find_of_tenant find_by_api_key
found_text id tenant_id [] key h m = cc
found_text id tenant_id (k ∷ keys) key h m =
    ground (arith, found_text id tenant_id keys key, eq_iff k.api_key key.api_key)

removed_text :
    (id tenant_id : String) (keys : Keys) (key : CapabilityKey)
    → HasUniqueTexts keys
    → find_of_tenant id tenant_id keys ≡ some key
    → find_by_api_key key.api_key (remove_row id keys) ≡ none
unfolding find_of_tenant find_by_api_key remove_row
removed_text id tenant_id [] key u h = absurd (cc)
removed_text id tenant_id (k ∷ keys) key (first, rest) h = ground (
  arith,
  removed_text id tenant_id keys key rest,
  missing-remove_row k.api_key id keys first,
  found_text id tenant_id keys key,
  eq_iff k.api_key key.api_key,
)

-- A key that its tenant deleted is refused from then on, whatever is created, deleted and used,
-- unless its text is drawn again; where no two rows share a text.
pub delete_key-resolve :
    (id tenant_id : String) (keys : Keys) (key : CapabilityKey) (ops : List (Environment × Op))
    (env : Environment) (client_type : ClientType) (now : ℕ)
    → HasUniqueTexts keys
    → find_of_tenant id tenant_id keys ≡ some key
    → NeverCreates key.api_key ops
    → (resolve_principal_from_api_key env key.api_key client_type now
        (run ops (delete_key id tenant_id keys).1)).0
      ≡ err invalid_api_key
unfolding resolve_principal_from_api_key delete_key
delete_key-resolve id tenant_id keys key ops env client_type now u h n =
    let gone =
      run_missing key.api_key ops (remove_row id keys) n (removed_text id tenant_id keys key u h) in
    ground (arith, gone, find_of_tenant-id id tenant_id keys key h)
