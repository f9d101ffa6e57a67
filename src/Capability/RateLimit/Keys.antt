-- ===== src/Capability/RateLimit/Keys.antt =====
-- The keys of the buckets: calls share a bucket of a rule only if they share its subject.
use Prim.Native.String
use Prim.Native.String.{[], ◌∷◌}
use Prim.Native.Char.{Char, code}
use text.Mathlib.TextLemmas.{cons-append}
use openviking_admin.Prelude.{
  ℕ, Bool-cases, inl, inr, str_eq→≡, String, false, str_eq, ◌≡◌, ◌≢◌, arith, ap, sym, ◌∙◌,
}
use openviking_admin.Capability.Types.{CapabilityId, Principal}
use openviking_admin.Capability.RateLimit.Service.{
  Scope, tenant, user, client_type, capability, bucket_key,
}

-- The second letter tells the scopes apart.
second : String → ℕ
second [] = 0
second (c ∷ []) = 0
second (c ∷ d ∷ s) = code d

second-append : (c d : Char) (s u : String) → second (String.◌++◌ (c ∷ d ∷ s) u) ≡ code d
unfolding second
second-append c d s u = rw (cons-append, cons-append)

letter : Scope → ℕ
letter tenant = b'e'
letter user = b's'
letter client_type = b'l'
letter capability = b'a'

letter-injective : (a b : Scope) → letter a ≡ letter b → a ≡ b
unfolding letter
letter-injective a b h = ground arith

second-bucket_key :
    (a : Scope) (p : Principal) (i : CapabilityId) → second (bucket_key a p i) ≡ letter a
unfolding bucket_key letter
second-bucket_key tenant p i = second-append "t" "e" "nant" _
second-bucket_key user p i = second-append "u" "s" "er" _
second-bucket_key client_type p i = second-append "c" "l" "ientType" _
second-bucket_key capability p i = second-append "c" "a" "pability" _

-- Keys of different rules are different.
pub bucket_key-scope :
    (a b : Scope) (p q : Principal) (i j : CapabilityId)
    → a ≢ b
    → str_eq (bucket_key a p i) (bucket_key b q j) ≡ false
bucket_key-scope a b p q i j h = elim (Bool-cases (str_eq (bucket_key a p i) (bucket_key b q j))) [
  | inl e ↦ absurd (
      h (
        letter-injective a b
          (sym (second-bucket_key a p i) ∙ ap second (str_eq→≡ _ _ e) ∙ second-bucket_key b q j)))
  | inr e ↦ e
]
