-- ===== src/Examples/Gate.antt =====
-- packages/daemon/src/api/auth.ts and routes/pacts.ts: requests to a host with two pacts.
use openpact.Prelude.{
  ℕ, Text, codes, Option, none, some, List, [], ◌∷◌, false, ◌≡◌, ◌↔◌, ◌⊎◌, refl, to_lower_case,
  trim,
}
use openpact.Access.{
  Request, passed, forbidden_host, forbidden_origin, no_bearer, bad_token, auth_hook,
  is_allowed_host, is_allowed_origin, bearer, or_empty, may_bind, after_spaces, before_query,
  check_bearer, host_allow, is_port_suffix, matches_name, same_bytes, strip_prefix, strip_prefix_i,
}
use openpact.Access.Names.{IsLocal}
use openpact.Access.Bearer.{Bears}
use openpact.Access.Rules.{IsPublic, Agrees, auth_hook_iff}
use openpact.Examples.Hosts.{host}

-- The host of an origin `http://<host>`, and UTF-8 of ASCII.
abbrev host_of : Text → Option Text
host_of (a ∷ b ∷ c ∷ d ∷ e ∷ f ∷ g ∷ host) = some host
host_of [] = none
host_of (a ∷ []) = none
host_of (a ∷ b ∷ []) = none
host_of (a ∷ b ∷ c ∷ []) = none
host_of (a ∷ b ∷ c ∷ d ∷ []) = none
host_of (a ∷ b ∷ c ∷ d ∷ e ∷ []) = none
host_of (a ∷ b ∷ c ∷ d ∷ e ∷ f ∷ []) = none

abbrev ascii : Text → List ℕ
ascii s = s

abbrev ask : Request
ask = record {
  url = codes "/v1/pacts?x=1";
  host = some (codes "LocalHost:7666");
  origin = some (codes "http://localhost:7666");
  authorization = some (codes " bearer   s3cret ");
}

auth_hook_iff_example : (auth_hook host_of ascii (codes "s3cret") ask ≡ passed) ↔ (
    IsPublic ask.url
    ⊎ (IsLocal (or_empty ask.host)
        × Agrees host_of (or_empty ask.origin) (or_empty ask.host)
        × ((s : Text) × Bears (or_empty ask.authorization) s × (ascii s ≡ ascii (codes "s3cret")))))
auth_hook_iff_example = auth_hook_iff host_of ascii (codes "s3cret") ask

-- Requests that are refused, and one that needs no token.
gate_runs :
    (auth_hook host_of ascii (codes "s3cret") (record ask { host = some (codes "evil.example") })
      ≡ forbidden_host)
    × (auth_hook host_of ascii
          (codes "s3cret")
          (record ask { origin = some (codes "http://localhost:80") })
        ≡ forbidden_origin)
    × (auth_hook host_of ascii (codes "s3cret") (record ask { authorization = none }) ≡ no_bearer)
    × (auth_hook host_of ascii (codes "other") ask ≡ bad_token)
    × (auth_hook host_of ascii (codes "other") (record ask { url = codes "/v1/ping?a" }) ≡ passed)
    × (may_bind (codes "0.0.0.0") ≡ false)
unfolding auth_hook before_query is_allowed_host host_allow matches_name strip_prefix to_lower_case
    trim is_port_suffix is_allowed_origin check_bearer bearer strip_prefix_i after_spaces same_bytes
    may_bind
gate_runs = (refl, refl, refl, refl, refl, refl)
