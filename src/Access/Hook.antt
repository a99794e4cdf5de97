-- ===== src/Access/Hook.antt =====
-- Which requests pass the hook.
use openpact.Prelude.{
  ℕ, Text, text_eq_iff, text_eq_refl, trim, to_lower_case, Option, none, some, List, [], ◌∷◌, ◌++◌,
  true, ==_iff, ◌≡◌, ◌↔◌, ◌⊎◌, inl, inr, refl, ap, ◌∙◌, arith, length, Bool-cases,
}
use mathlib.Core.List.{Mem}
use mathlib.Core.Logic.Or
use openpact.Access.{
  is_public_path, is_port_suffix, strip_prefix, loopback_names, or_empty, is_allowed_host, bearer,
  Request, passed, same_bytes, is_allowed_origin, check_bearer, auth_hook,
}

pub strip_prefix_iff : (p s rest : Text) → (strip_prefix p s ≡ some rest) ↔ (s ≡ p ++ rest)
unfolding strip_prefix
strip_prefix_iff [] s rest = (λ h. ground arith, λ h. ground arith)
strip_prefix_iff (c ∷ p) [] rest = (λ h. absurd (ground arith), λ h. absurd (ground arith))
strip_prefix_iff (c ∷ p) (d ∷ s) rest =
    (λ h. ground (arith, strip_prefix_iff p s rest), λ h. ground (arith, strip_prefix_iff p s rest))

same_bytes_iff : (xs ys : List ℕ) → (same_bytes xs ys ≡ true) ↔ (xs ≡ ys)
unfolding same_bytes
same_bytes_iff xs ys = (
  λ h. ground (arith, text_eq_iff xs ys),
  λ h. rw (h, text_eq_refl ys, (==_iff (length ys) (length ys)).1 refl) refl,
)

-- A name that the daemon may be called by on its own host, in any case, with a port or without.
pub record IsLoopback (host : Text) : Type 0 where
  pub name : Text
  pub rest : Text
  pub known : Mem name loopback_names
  pub parts : to_lower_case (trim host) ≡ name ++ rest
  pub port : is_port_suffix rest ≡ true

module _ (url_host : Text → Option Text) (utf8 : Text → List ℕ) where
  check_bearer_iff :
      (token : Text) (presented : Option Text)
      → (check_bearer url_host utf8 token presented ≡ passed)
        ↔ ((s : Text) × (presented ≡ some s) × (utf8 s ≡ utf8 token))
  unfolding check_bearer
  check_bearer_iff token none = (λ h. absurd (ground arith), λ (s, h, k). absurd (ground arith))
  check_bearer_iff token (some s) = (
    λ h. (s, refl, (same_bytes_iff (utf8 s) (utf8 token)).0 (ground arith)),
    λ (t, h, k).
        rw ((same_bytes_iff (utf8 s) (utf8 token)).1 (ap (λ o. utf8 (or_empty o)) h ∙ k)) refl,
  )

  -- A request passes by its path, or by its Host, its Origin and its bearer text.
  pub auth_hook-passed :
      (token : Text) (req : Request)
      → (auth_hook url_host utf8 token req ≡ passed) ↔ (
          (is_public_path req.url ≡ true)
          ⊎ ((is_allowed_host req.host ≡ true)
              × (is_allowed_origin url_host utf8 req.origin req.host ≡ true)
              × ((s : Text) × (bearer (or_empty req.authorization) ≡ some s)
                  × (utf8 s ≡ utf8 token))))
  unfolding auth_hook
  auth_hook-passed token req = (
    λ h. elim (Bool-cases (is_public_path req.url)) [
      | inl public ↦ inl public
      | inr private ↦ inr (
        ground arith,
        ground arith,
        (check_bearer_iff token (bearer (or_empty req.authorization))).0 (ground arith),
      )
    ],
    λ way. elim way [
      | inl public ↦ rw public refl
      | inr (host, origin, bears) ↦ elim (Bool-cases (is_public_path req.url)) [
        | inl public ↦ rw public refl
        | inr private ↦
            rw (private, host, origin)
              ((check_bearer_iff token (bearer (or_empty req.authorization))).1 bears)
      ]
    ],
  )
