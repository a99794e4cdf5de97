-- ===== src/Access/Names.antt =====
-- The names that a request may call the daemon by, against HOST_ALLOW_RE of
-- packages/daemon/src/api/auth.ts.
use openpact.Prelude.{
  ◌≤◌, Text, codes, truthy, trim, to_lower_case, Option, some, List, [], ◌∷◌, ◌++◌, true, false,
  ◌≡◌, ◌↔◌, ◌⊎◌, inl, inr, refl, ap, ◌∙◌, arith, length, all, All, Bool-cases, Option-cases,
}
use openpact.EntryId.Decimal.{is_digit}
use openpact.Access.{
  is_port_suffix, strip_prefix, loopback_names, matches_name, host_allow, or_empty, is_allowed_host,
}
use openpact.Access.Hook.{strip_prefix_iff}

-- Nothing, or a colon and one to five digits.
abbrev pub IsPort : Text → Type 0
IsPort rest =
    (rest ≡ [])
    ⊎ ((digits : Text) × (rest ≡ 58 ∷ digits)
        × (1 ≤ length digits)
        × (length digits ≤ 5)
        × All (λ c. (48 ≤ c) × (c ≤ 57)) digits)

-- `localhost`, `127.0.0.1`, or `::1` with a bracket before it or not, and one behind it or not.
abbrev pub IsName : Text → Type 0
IsName name =
    (name ≡ codes "localhost")
    ⊎ (name ≡ codes "127.0.0.1")
    ⊎ ((before : Text) × (after : Text) × ((before ≡ []) ⊎ (before ≡ codes "["))
        × ((after ≡ []) ⊎ (after ≡ codes "]"))
        × (name ≡ before ++ (codes "::1" ++ after)))

-- A host of such a name, in any case, with a port or without, and white space around it.
pub record IsLocal (host : Text) : Type 0 where
  pub name : Text
  pub rest : Text
  pub named : IsName name
  pub parts : to_lower_case (trim host) ≡ name ++ rest
  pub port : IsPort rest

all_digits_iff : (s : Text) → (all is_digit s ≡ true) ↔ All (λ c. (48 ≤ c) × (c ≤ 57)) s
all_digits_iff [] = (λ h. tt, λ h. refl)
all_digits_iff (c ∷ s) = (
  λ h. (ground arith, (all_digits_iff s).0 (ground arith)),
  λ (h, k). ground (arith, (all_digits_iff s).1 k),
)

is_port_suffix-IsPort : (s : Text) → is_port_suffix s ≡ true → IsPort s
unfolding is_port_suffix
is_port_suffix-IsPort [] h = inl refl
is_port_suffix-IsPort (c ∷ []) h = absurd (ground arith)
is_port_suffix-IsPort (c ∷ d ∷ s) h = inr (
  d ∷ s,
  ap (λ x. x ∷ d ∷ s) (ground arith),
  omega arith,
  ground arith,
  (all_digits_iff (d ∷ s)).0 (ground arith),
)

IsPort-is_port_suffix : (s : Text) → IsPort s → is_port_suffix s ≡ true
unfolding is_port_suffix
IsPort-is_port_suffix s (inl none_) = rw none_ refl
IsPort-is_port_suffix s (inr (digits, parts, some_, few, ok)) =
    rw parts (IsPort-digits digits some_ few ((all_digits_iff digits).1 ok))
  where
    IsPort-digits :
        (digits : Text)
        → 1 ≤ length digits
        → length digits ≤ 5
        → all is_digit digits ≡ true
        → is_port_suffix (58 ∷ digits) ≡ true
    IsPort-digits [] a b c = absurd (omega arith)
    IsPort-digits (d ∷ s) a b c = ground arith

-- The name is among the names of a list.
abbrev Among : Text → List Text → Type 0
Among name [] = ⊥
Among name (n ∷ names) = (name ≡ n) ⊎ Among name names

matches_name-Among :
    (s : Text) (names : List Text)
    → matches_name s names ≡ true
    → (name : Text) × (rest : Text) × Among name names
      × (s ≡ name ++ rest)
      × (is_port_suffix rest ≡ true)
unfolding matches_name
matches_name-Among s [] h = absurd (ground arith)
matches_name-Among s (n ∷ names) h = elim (Option-cases (strip_prefix n s)) [
  | inl none_ ↦
      let (name, rest, among, parts, port) = matches_name-Among s names (ground arith) in
      (name, rest, inr among, parts, port)
  | inr (rest, stripped) ↦ elim (Bool-cases (is_port_suffix rest)) [
    | inl port ↦ (n, rest, inl refl, (strip_prefix_iff n s rest).0 stripped, port)
    | inr no_port ↦
        let (name, rest', among, parts, port) = matches_name-Among s names (ground arith) in
        (name, rest', inr among, parts, port)
  ]
]

Among-matches_name :
    (s name rest : Text) (names : List Text)
    → Among name names
    → s ≡ name ++ rest
    → is_port_suffix rest ≡ true
    → matches_name s names ≡ true
unfolding matches_name
Among-matches_name s name rest [] among parts port = absurd among
Among-matches_name s name rest (n ∷ names) (inl here) parts port =
    let stripped : strip_prefix n s ≡ some rest =
      (strip_prefix_iff n s rest).1 (parts ∙ ap (λ x. x ++ rest) here) in
    ground arith
Among-matches_name s name rest (n ∷ names) (inr among) parts port =
    ground (arith, Among-matches_name s name rest names among parts port)

Among-IsName : (name : Text) → Among name loopback_names → IsName name
Among-IsName name (inl e) = inl e
Among-IsName name (inr (inl e)) = inr (inl e)
Among-IsName name (inr (inr (inl e))) = inr (inr ([], [], inl refl, inl refl, e))
Among-IsName name (inr (inr (inr (inl e)))) = inr (inr (codes "[", [], inr refl, inl refl, e))
Among-IsName name (inr (inr (inr (inr (inl e))))) = inr (inr ([], codes "]", inl refl, inr refl, e))
Among-IsName name (inr (inr (inr (inr (inr (inl e)))))) =
    inr (inr (codes "[", codes "]", inr refl, inr refl, e))
Among-IsName name (inr (inr (inr (inr (inr (inr e)))))) = absurd e

IsName-Among : (name : Text) → IsName name → Among name loopback_names
IsName-Among name (inl e) = inl e
IsName-Among name (inr (inl e)) = inr (inl e)
IsName-Among name (inr (inr (before, after, inl b, inl a, e))) =
    inr (inr (inl (e ∙ rw (b, a) refl)))
IsName-Among name (inr (inr (before, after, inr b, inl a, e))) =
    inr (inr (inr (inl (e ∙ rw (b, a) refl))))
IsName-Among name (inr (inr (before, after, inl b, inr a, e))) =
    inr (inr (inr (inr (inl (e ∙ rw (b, a) refl)))))
IsName-Among name (inr (inr (before, after, inr b, inr a, e))) =
    inr (inr (inr (inr (inr (inl (e ∙ rw (b, a) refl))))))

host_allow_iff : (host : Text) → (host_allow (trim host) ≡ true) ↔ IsLocal host
unfolding host_allow
host_allow_iff host = (
  λ h.
      let (name, rest, among, parts, port) =
        matches_name-Among (to_lower_case (trim host)) loopback_names h in
      record {
        name = name;
        rest = rest;
        named = Among-IsName name among;
        parts = parts;
        port = is_port_suffix-IsPort rest port;
      },
  λ l.
      Among-matches_name (to_lower_case (trim host)) l.name l.rest loopback_names
        (IsName-Among l.name l.named) l.parts (IsPort-is_port_suffix l.rest l.port),
)

-- The empty text is no host.
empty_host : host_allow (trim []) ≡ false
unfolding host_allow matches_name strip_prefix to_lower_case trim
empty_host = refl

pub local-truthy : (host : Text) → IsLocal host → truthy host ≡ true
local-truthy [] l = absurd (ground (arith, (host_allow_iff []).1 l, empty_host))
local-truthy (c ∷ s) l = refl

pub is_allowed_host_iff :
    (host : Option Text) → (is_allowed_host host ≡ true) ↔ IsLocal (or_empty host)
unfolding is_allowed_host
is_allowed_host_iff host = (
  λ h. (host_allow_iff (or_empty host)).0 (ground arith),
  λ l. rw (local-truthy (or_empty host) l) ((host_allow_iff (or_empty host)).1 l),
)
