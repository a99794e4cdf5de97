-- ===== src/Access/Rules.antt =====
-- Who may use the REST interface, in terms of the headers alone.
use openpact.Prelude.{
  ℕ, Text, codes, truthy, text_eq_iff, to_lower_case, Option, some, List, [], ◌∷◌, ◌++◌, true,
  false, ◌==◌, ==_iff, ◌≡◌, ◌↔◌, ◌⊎◌, inl, inr, refl, ap, ◌∙◌, arith, Bool-cases, Option-cases,
}
use openpact.Access.{
  before_query, is_public_path, or_empty, Request, passed, is_allowed_origin, auth_hook,
}
use openpact.Access.Hook.{auth_hook-passed}
use openpact.Access.Names.{IsLocal, local-truthy, is_allowed_host_iff}
use openpact.Access.Bearer.{Bears, bearer_iff}

-- Nothing, or a query.
abbrev pub IsQuery : Text → Type 0
IsQuery rest = (rest ≡ []) ⊎ ((query : Text) × (rest ≡ 63 ∷ query))

-- One of the three public paths, with a query or without.
pub record IsPublic (url : Text) : Type 0 where
  pub path : Text
  pub rest : Text
  pub known : (path ≡ codes "/v1/ping") ⊎ (path ≡ codes "/v1/healthz") ⊎ (path ≡ codes "/v1/readyz")
  pub parts : url ≡ path ++ rest
  pub query : IsQuery rest

-- The Origin is left out, or it is a URL whose host is a loopback name and is the Host itself up to
-- the case of its letters.
abbrev pub Agrees : (Text → Option Text) → Text → Text → Type 0
Agrees url_host origin host =
    (origin ≡ [])
    ⊎ ((u : Text) × (url_host origin ≡ some u) × IsLocal u × (to_lower_case u ≡ to_lower_case host))

before_query-parts : (url : Text) → (rest : Text) × (url ≡ before_query url ++ rest) × IsQuery rest
unfolding before_query
before_query-parts [] = ([], refl, inl refl)
before_query-parts (c ∷ s) = elim (Bool-cases (c == 63)) [
  | inl mark ↦ (c ∷ s, rw mark refl, inr (s, ap (λ x. x ∷ s) ((==_iff c 63).0 mark)))
  | inr other ↦
      let (rest, parts, query) = before_query-parts s in
      (rest, rw other (ap (λ t. c ∷ t) parts), query)
]

is_public_path-IsPublic : (url : Text) → is_public_path url ≡ true → IsPublic url
is_public_path-IsPublic url h =
    let (rest, parts, query) = before_query-parts url in
    record {
      path = before_query url;
      rest = rest;
      known = ground (
        arith,
        text_eq_iff (before_query url) (codes "/v1/ping"),
        text_eq_iff (before_query url) (codes "/v1/healthz"),
        text_eq_iff (before_query url) (codes "/v1/readyz"),
      );
      parts = parts;
      query = query;
    }

public_by :
    (path rest : Text)
    → (path ≡ codes "/v1/ping") ⊎ (path ≡ codes "/v1/healthz") ⊎ (path ≡ codes "/v1/readyz")
    → IsQuery rest
    → is_public_path (path ++ rest) ≡ true
unfolding before_query
public_by path rest (inl p) (inl r) = rw (p, r) refl
public_by path rest (inl p) (inr (q, r)) = rw (p, r) refl
public_by path rest (inr (inl p)) (inl r) = rw (p, r) refl
public_by path rest (inr (inl p)) (inr (q, r)) = rw (p, r) refl
public_by path rest (inr (inr p)) (inl r) = rw (p, r) refl
public_by path rest (inr (inr p)) (inr (q, r)) = rw (p, r) refl

IsPublic-is_public_path : (url : Text) → IsPublic url → is_public_path url ≡ true
IsPublic-is_public_path url p = ap is_public_path p.parts ∙ public_by p.path p.rest p.known p.query

truthy-empty : (s : Text) → truthy s ≡ false → s ≡ []
truthy-empty [] h = refl
truthy-empty (c ∷ s) h = absurd (ground arith)

module _ (url_host : Text → Option Text) (utf8 : Text → List ℕ) where
  origin-Agrees :
      (origin host : Option Text)
      → IsLocal (or_empty host)
      → is_allowed_origin url_host utf8 origin host ≡ true
      → Agrees url_host (or_empty origin) (or_empty host)
  unfolding is_allowed_origin
  origin-Agrees origin host local h = elim (Bool-cases (truthy (or_empty origin))) [
    | inr empty ↦ inl (truthy-empty (or_empty origin) empty)
    | inl given ↦ elim (Option-cases (url_host (or_empty origin))) [
      | inl bad ↦ absurd (ground arith)
      | inr (u, parsed) ↦ inr (
        u,
        parsed,
        (is_allowed_host_iff (some u)).0 (ground arith),
        (text_eq_iff (to_lower_case u) (to_lower_case (or_empty host))).0
            (ground (arith, local-truthy (or_empty host) local)),
      )
    ]
  ]

  Agrees-origin :
      (origin host : Option Text)
      → IsLocal (or_empty host)
      → Agrees url_host (or_empty origin) (or_empty host)
      → is_allowed_origin url_host utf8 origin host ≡ true
  unfolding is_allowed_origin
  Agrees-origin origin host local (inl empty) = rw (is_allowed_origin, empty) refl
  Agrees-origin origin host local (inr (u, parsed, allowed, same)) =
      elim (Bool-cases (truthy (or_empty origin))) [
        | inr empty ↦ rw (is_allowed_origin, empty) refl
        | inl given ↦
            rw
              (
                is_allowed_origin,
                given,
                parsed,
                (is_allowed_host_iff (some u)).1 allowed,
                local-truthy (or_empty host) local,
                (text_eq_iff (to_lower_case u) (to_lower_case (or_empty host))).1 same,
              )
              refl
      ]

  -- A request passes exactly if its path is one of the three public ones, with a query or without;
  -- or its Host is a loopback name, with a port of at most five digits or without; and its Origin is
  -- left out, or is a URL whose host is such a name too and is the Host up to the case of its
  -- letters; and its Authorization bears a text with the bytes of the token.
  pub auth_hook_iff :
      (token : Text) (req : Request)
      → (auth_hook url_host utf8 token req ≡ passed) ↔ (
          IsPublic req.url
          ⊎ (IsLocal (or_empty req.host)
              × Agrees url_host (or_empty req.origin) (or_empty req.host)
              × ((s : Text) × Bears (or_empty req.authorization) s × (utf8 s ≡ utf8 token))))
  auth_hook_iff token req =
      let (passes, back) = auth_hook-passed url_host utf8 token req in
      (
        λ h. elim (passes h) [
          | inl public ↦ inl (is_public_path-IsPublic req.url public)
          | inr (host, origin, (s, bears, bytes)) ↦
              let local = (is_allowed_host_iff req.host).0 host in
              inr (
                local,
                origin-Agrees req.origin req.host local origin,
                (s, (bearer_iff (or_empty req.authorization) s).0 bears, bytes),
              )
        ],
        λ way. elim way [
          | inl public ↦ back (inl (IsPublic-is_public_path req.url public))
          | inr (local, agrees, (s, bears, bytes)) ↦ back (
              inr (
                (is_allowed_host_iff req.host).1 local,
                Agrees-origin req.origin req.host local agrees,
                (s, (bearer_iff (or_empty req.authorization) s).1 bears, bytes),
              ))
        ],
      )
