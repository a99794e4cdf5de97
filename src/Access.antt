-- ===== src/Access.antt =====
-- Who may use the REST interface: packages/daemon/src/api/auth.ts and bind.ts. The host of a parsed
-- URL and the UTF-8 bytes of a text are parameters.
pub mod Hook
pub mod Rules
pub mod Bearer
pub mod Names
use Prim.Native.String.{String}
use openpact.Prelude.{
  ℕ, zero, suc, Text, codes, truthy, text_eq, trim, trim_start, is_space, to_lower_case, Option,
  none, some, List, [], ◌∷◌, ◌++◌, Bool, true, false, not, ◌&&◌, ◌||◌, ◌==◌, leb, if◌then◌else◌,
  length, all,
}
use openpact.EntryId.Decimal.{is_digit}

-- `url.split('?', 1)[0]`
unfoldable pub before_query : Text → Text
before_query [] = []
before_query (c ∷ s) = let rest = before_query s in if c == 63 then [] else c ∷ rest

abbrev pub is_public_path : Text → Bool
is_public_path url =
    let path = before_query url in
    text_eq path (codes "/v1/ping")
    || text_eq path (codes "/v1/healthz")
    || text_eq path (codes "/v1/readyz")

-- `(:\d{1,5})?$`
unfoldable pub is_port_suffix : Text → Bool
is_port_suffix [] = true
is_port_suffix (c ∷ s) = c == 58 && truthy s && leb (length s) 5 && all is_digit s

-- The rest of a text after a prefix that it has.
unfoldable pub strip_prefix : Text → Text → Option Text
strip_prefix [] s = some s
strip_prefix (c ∷ p) [] = none
strip_prefix (c ∷ p) (d ∷ s) = let rest = strip_prefix p s in if c == d then rest else none

abbrev pub loopback_names : List Text
loopback_names =
    codes "localhost"
    ∷ codes "127.0.0.1"
    ∷ codes "::1"
    ∷ codes "[::1"
    ∷ codes "::1]"
    ∷ codes "[::1]"
    ∷ []

abbrev pub ends_in_port : Option Text → Bool
ends_in_port none = false
ends_in_port (some rest) = is_port_suffix rest

unfoldable pub matches_name : Text → List Text → Bool
matches_name s [] = false
matches_name s (name ∷ names) = ends_in_port (strip_prefix name s) || matches_name s names

-- `HOST_ALLOW_RE`
unfoldable pub host_allow : Text → Bool
host_allow s = matches_name (to_lower_case s) loopback_names

abbrev pub or_empty : Option Text → Text
or_empty none = []
or_empty (some s) = s

unfoldable pub is_allowed_host : Option Text → Bool
is_allowed_host host = truthy (or_empty host) && host_allow (trim (or_empty host))

-- `.`, which is no line terminator
abbrev pub is_dot : ℕ → Bool
is_dot c = not (c == 10 || c == 13 || c == 8232 || c == 8233)

-- `\s+(.+)$` of a text without white space at its end: the spaces, then the capture.
unfoldable pub after_spaces : Text → Option Text
after_spaces [] = none
after_spaces (c ∷ s) =
    let rest = trim_start s in
    if is_space c && truthy rest && all is_dot rest then some rest else none

-- The prefix in any case.
unfoldable pub strip_prefix_i : Text → Text → Option Text
strip_prefix_i [] s = some s
strip_prefix_i (c ∷ p) [] = none
strip_prefix_i (c ∷ p) (d ∷ s) =
    let rest = strip_prefix_i p s in
    if text_eq (to_lower_case (d ∷ [])) (c ∷ []) then rest else none

-- `/^Bearer\s+(.+)$/i` on the trimmed header, and the trimmed capture.
unfoldable pub bearer : Text → Option Text
bearer header = elim (strip_prefix_i (codes "bearer") (trim header)) [
  | none ↦ none
  | some s ↦ elim (after_spaces s) [ none ↦ none | some capture ↦ some (trim capture) ]
]

pub record Request : Type 0 where
  pub url : Text
  pub host : Option Text
  pub origin : Option Text
  pub authorization : Option Text

pub data AuthReply : Type 0 where
  passed forbidden_host forbidden_origin no_bearer bad_token : AuthReply

-- The HTTP status of a refusal.
abbrev pub status_of : AuthReply → Option ℕ
status_of passed = none
status_of forbidden_host = some 403
status_of forbidden_origin = some 403
status_of no_bearer = some 401
status_of bad_token = some 401

-- `Buffer`s of equal length and contents.
unfoldable pub same_bytes : List ℕ → List ℕ → Bool
same_bytes xs ys = length xs == length ys && text_eq xs ys

module _ (url_host : Text → Option Text) (utf8 : Text → List ℕ) where
  -- `url_host` is `new URL(origin).host`, with `none` where that throws.
  unfoldable pub is_allowed_origin : Option Text → Option Text → Bool
  is_allowed_origin origin host =
      if not (truthy (or_empty origin)) then true else elim (url_host (or_empty origin)) [
        | none ↦ false
        | some u ↦
            is_allowed_host (some u)
            && (not (truthy (or_empty host))
                || text_eq (to_lower_case u) (to_lower_case (or_empty host)))
      ]

  unfoldable pub check_bearer : Text → Option Text → AuthReply
  check_bearer token presented = elim presented [
    | none ↦ no_bearer
    | some s ↦ if same_bytes (utf8 s) (utf8 token) then passed else bad_token
  ]

  unfoldable pub auth_hook : Text → Request → AuthReply
  auth_hook token req =
      if is_public_path req.url
      then passed
      else if not (is_allowed_host req.host)
      then forbidden_host
      else if not (is_allowed_origin req.origin req.host)
      then forbidden_origin
      else check_bearer token (bearer (or_empty req.authorization))

-- The addresses that `bind` listens on.
unfoldable pub may_bind : Text → Bool
may_bind host =
    text_eq host (codes "127.0.0.1")
    || text_eq host (codes "::1")
    || text_eq host (codes "localhost")
