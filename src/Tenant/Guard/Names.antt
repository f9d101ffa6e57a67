-- ===== src/Tenant/Guard/Names.antt =====
-- Which tenants share a schema.
use openviking_admin.Prelude.{
  String, ◌≡◌, refl, sym, ap, ◌∙◌, ◌≢◌, inl, inr, Bool, false, ◌||◌, arith, if◌then◌else◌,
  Bool-cases, ◌==◌,
}
use Prim.Native.Char.{Char, code}
use text.Mathlib.TextEquality.{Char-path}
use text.Mathlib.TextLemmas.{head-eq_of_cons-eq, tail-eq_of_cons-eq, append_cancel_left}
use openviking_admin.Tenant.Guard.{with_underscores, schema_name}

-- The text has no `_`.
unfoldable pub has_underscore : String → Bool
has_underscore String.[] = false
has_underscore (String.◌∷◌ c s) = code c == b'_' || has_underscore s

abbrev swapped : Char → Char
swapped c = if code c == b'-' then "_" else c

code-swapped : (c : Char) → code (swapped c) ≡ (if code c == b'-' then b'_' else code c)
code-swapped c = elim (Bool-cases (code c == b'-')) [
  | inl hyphen ↦ rw (swapped, hyphen) refl
  | inr other ↦ rw (swapped, other) refl
]

swapped_inj :
    (c d : Char) → code c == b'_' ≡ false → code d == b'_' ≡ false → swapped c ≡ swapped d → c ≡ d
swapped_inj c d hc hd e =
    let same : (if code c == b'-' then b'_' else code c)
        ≡ (if code d == b'-' then b'_' else code d) =
      sym (code-swapped c) ∙ ap code e ∙ code-swapped d in
    Char-path c d (ground (arith, hc, hd, same))

with_underscores_inj :
    (s t : String)
    → has_underscore s ≡ false
    → has_underscore t ≡ false
    → with_underscores s ≡ with_underscores t
    → s ≡ t
unfolding with_underscores has_underscore
with_underscores_inj String.[] String.[] hs ht e = refl
with_underscores_inj String.[] (String.◌∷◌ d t) hs ht e = absurd (cc)
with_underscores_inj (String.◌∷◌ c s) String.[] hs ht e = absurd (cc)
with_underscores_inj (String.◌∷◌ c s) (String.◌∷◌ d t) hs ht e =
    let first : c ≡ d = swapped_inj c d (ground arith) (ground arith) (head-eq_of_cons-eq e) in
    let rest : s ≡ t =
      with_underscores_inj s t (ground arith) (ground arith) (tail-eq_of_cons-eq e) in
    cc

schema_name_inj :
    (a b : String)
    → has_underscore a ≡ false
    → has_underscore b ≡ false
    → schema_name a ≡ schema_name b
    → a ≡ b
unfolding schema_name
schema_name_inj a b ha hb e = with_underscores_inj a b ha hb (append_cancel_left "tenant_" _ _ e)

-- Tenants with different names, neither of which has a `_`, have different schemas.
pub schema_name-ne :
    (a b : String)
    → a ≢ b
    → has_underscore a ≡ false
    → has_underscore b ≡ false
    → schema_name a ≢ schema_name b
schema_name-ne a b apart ha hb e = apart (schema_name_inj a b ha hb e)
