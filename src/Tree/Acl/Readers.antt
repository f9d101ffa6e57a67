-- ===== src/Tree/Acl/Readers.antt =====
-- Who reads a node, in words of lists.
use openviking_admin.Prelude.{
  In-if, String, ◌≡◌, refl, sym, ◌∙◌, ◌≢◌, ◌↔◌, ◌⊎◌, inl, inr, Bool, true, false, ◌&&◌, ◌||◌,
  Option, none, some, List, [], ◌∷◌, arith, eq_iff, str_eq, str_eq_refl, str_eq→≡, Bool-cases,
  truthy, or_else, In,
}
use openviking_admin.Tree.Node.{KnowledgeNode, KnowledgeNodeAcl}
use openviking_admin.Tree.Acl.{
  KnowledgeNodeAccessPrincipal, includes, can_read_node, filter_readable_nodes,
}

includes_iff : (ts : List String) (s : String) → (includes ts s ≡ true) ↔ In s ts
includes_iff [] s = (λ h. cc, λ m. absurd m)
includes_iff (t ∷ ts) s = (
  λ h. elim (Bool-cases (str_eq t s)) [
    | inl e ↦ inl (str_eq→≡ t s e)
    | inr e ↦ inr ((includes_iff ts s).0 (ground (arith, e)))
  ],
  λ m. elim m [
    | inl e ↦ rw e (rw (str_eq_refl s) refl)
    | inr n ↦ ground (arith, (includes_iff ts s).1 n)
  ],
)

-- The role of the principal, or the principal, is listed.
abbrev pub IsListed : KnowledgeNodeAcl → KnowledgeNodeAccessPrincipal → Type 0
IsListed acl principal =
    ((role : String) × (principal.role ≡ some role) × (role ≢ "") × In role (or_else acl.roles []))
    ⊎ In principal.user_id (or_else acl.users [])

abbrev pub CanRead : Option KnowledgeNodeAcl → KnowledgeNodeAccessPrincipal → Type 0
CanRead none principal = Unit
CanRead (some acl) principal = (acl.is_public ≡ true) ⊎ IsListed acl principal

role_iff :
    (role : Option String) (roles : List String)
    → ((truthy role && includes roles (or_else role "")) ≡ true)
      ↔ ((r : String) × (role ≡ some r) × (r ≢ "") × In r roles)
role_iff none roles = (λ h. absurd (cc), λ (r, e, d, m). absurd (cc))
role_iff (some r) roles = (
  λ h. (r, refl, λ e. ground (arith, eq_iff r ""), (includes_iff roles r).0 (ground arith)),
  λ (q, e, d, m).
      let same : r ≡ q = cc in
      ground (arith, eq_iff r "", (includes_iff roles r).1 (rw (sym same) at m)),
)

or_iff : (a b : Bool) → ((a || b) ≡ true) ↔ ((a ≡ true) ⊎ (b ≡ true))
or_iff true b = (λ h. inl refl, λ h. refl)
or_iff false b = (λ h. inr h, λ h. elim h [ inl e ↦ absurd (cc) | inr e ↦ e ])

can_read_listed :
    (node : KnowledgeNode) (principal : KnowledgeNodeAccessPrincipal) (acl : KnowledgeNodeAcl)
    → node.acl ≡ some acl
    → can_read_node node principal ≡ (
        acl.is_public
        || ((truthy principal.role && includes (or_else acl.roles []) (or_else principal.role ""))
            || includes (or_else acl.users []) principal.user_id))
unfolding can_read_node
can_read_listed node principal acl e = ground (arith, e)

CanRead-iff :
    (node : KnowledgeNode) (principal : KnowledgeNodeAccessPrincipal)
    (acl : Option KnowledgeNodeAcl)
    → node.acl ≡ acl
    → (can_read_node node principal ≡ true) ↔ CanRead acl principal
unfolding can_read_node
CanRead-iff node principal none e = (λ h. tt, λ h. ground (arith, e))
CanRead-iff node principal (some acl) e =
    let role : Bool =
      truthy principal.role && includes (or_else acl.roles []) (or_else principal.role "") in
    let user : Bool = includes (or_else acl.users []) principal.user_id in
    let by_role = role_iff principal.role (or_else acl.roles []) in
    let by_user = includes_iff (or_else acl.users []) principal.user_id in
    (
      λ h.
          elim ((or_iff acl.is_public (role || user)).0
            (sym (can_read_listed node principal acl e) ∙ h)) [
              | inl public ↦ inl public
              | inr listed ↦ elim ((or_iff role user).0 listed) [
                | inl r ↦ inr (inl (by_role.0 r))
                | inr u ↦ inr (inr (by_user.0 u))
              ]
            ],
      λ h.
          can_read_listed node principal acl e
          ∙ (or_iff acl.is_public (role || user)).1
              (elim h as (λ _. (acl.is_public ≡ true) ⊎ ((role || user) ≡ true)) [
                | inl public ↦ inl public
                | inr listed ↦ inr (
                    (or_iff role user).1 (elim listed as (λ _. (role ≡ true) ⊎ (user ≡ true)) [
                      | inl r ↦ inl (by_role.1 r)
                      | inr u ↦ inr (by_user.1 u)
                    ]))
              ]),
    )

-- The nodes that are listed for a principal are those of the list that it may read: where the node
-- has no access list or is public, or where its access list names the role, not empty, or the user.
pub filter_readable_nodes_iff :
    (nodes : List KnowledgeNode) (principal : KnowledgeNodeAccessPrincipal) (y : KnowledgeNode)
    → In y (filter_readable_nodes nodes principal) ↔ (In y nodes × CanRead y.acl principal)
unfolding filter_readable_nodes
filter_readable_nodes_iff [] principal y = (λ m. absurd m, λ (m, _). absurd m)
filter_readable_nodes_iff (x ∷ nodes) principal y =
    let step = In-if y x (can_read_node x principal) (filter_readable_nodes nodes principal) in
    let rest = filter_readable_nodes_iff nodes principal y in
    (
      λ m. elim (step.0 m) [
        | inl (reads, e) ↦ (inl e, rw e at ((CanRead-iff x principal x.acl refl).0 reads))
        | inr n ↦ let (there, may) = rest.0 n in (inr there, may)
      ],
      λ (m, may). elim m [
        | inl e ↦ step.1 (inl ((CanRead-iff x principal x.acl refl).1 (rw e may), e))
        | inr n ↦ step.1 (inr (rest.1 (n, may)))
      ],
    )
