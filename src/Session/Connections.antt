-- ===== src/Session/Connections.antt =====
-- The registry seen as the set of live connections, and what the locks say of it.
use openviking_admin.Prelude.{
  Bool-cases, str_eq_refl, HasUniqueKeys, inl, inr, String, Option, none, some, Bool, true, false,
  [], ◌∷◌, Map, get, or_else, eq_iff, ◌≡◌, refl, arith, ◌↔◌,
}
use openviking_admin.Session.{
  is_write, DocumentSessionMode, readonly, write, DocumentSessionInfo, Sessions,
  DocumentSessionRegistry, is_inhabited, some_write,
}

-- What a connection has open at a node.
abbrev pub connection : String → String → DocumentSessionRegistry → Option DocumentSessionInfo
connection node_id connection_id r = get connection_id (or_else (get node_id r.node_sessions) [])

pub get_of_empty {ℓ} :
    {V : Type ℓ} (k : String) (m : Map V) → is_inhabited m ≡ false → get k m ≡ none
unfolding get
get_of_empty k [] h = refl
get_of_empty k (_ ∷ _) h = cc

abbrev Writer : Sessions → Type 0
Writer sessions =
    (c : String) × (s : DocumentSessionInfo) × (get c sessions ≡ some s) × (s.mode ≡ write)

Writer-cons :
    (d : String) (t : DocumentSessionInfo) (sessions : Sessions)
    → get d sessions ≡ none
    → Writer sessions
    → Writer ((d, t) ∷ sessions)
unfolding get
Writer-cons d t sessions fresh (c, s, found, m) = (c, s, ground (arith, eq_iff d c), m)

mode_of_write : (m : DocumentSessionMode) → is_write m ≡ true → m ≡ write
mode_of_write write h = refl
mode_of_write readonly h = cc

some_write_sound :
    (sessions : Sessions) → HasUniqueKeys sessions → some_write sessions ≡ true → Writer sessions
unfolding some_write get
some_write_sound [] u h = cc
some_write_sound ((d, t) ∷ sessions) (fresh, u) h = elim (Bool-cases (is_write t.mode)) [
  | inl e ↦ (d, t, rw (str_eq_refl d), mode_of_write t.mode e)
  | inr e ↦ Writer-cons d t sessions fresh (some_write_sound sessions u (rw e at h))
]

some_write_complete :
    (sessions : Sessions) (c : String) (s : DocumentSessionInfo)
    → get c sessions ≡ some s
    → s.mode ≡ write
    → some_write sessions ≡ true
unfolding get some_write
some_write_complete [] c s h m = cc
some_write_complete ((d, t) ∷ sessions) c s h m =
    ground (arith, eq_iff d c, some_write_complete sessions c s)

no_Writer : Writer [] → ⊥
unfolding get
no_Writer (c, s, found, m) = cc

write_iff :
    (o : Option Sessions)
    → HasUniqueKeys (or_else o [])
    → (elim o as (λ x. Bool) [ none ↦ false | some sessions ↦ some_write sessions ] ≡ true)
      ↔ Writer (or_else o [])
write_iff none u = (λ h. absurd (cc), λ w. absurd (no_Writer w))
write_iff (some sessions) u =
    (some_write_sound sessions u, λ (c, s, found, m). some_write_complete sessions c s found m)
