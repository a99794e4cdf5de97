-- ===== src/Examples/Codec.antt =====
-- A coding of tokens that is its own inverse, in place of JSON and base64url.
use mathlib.Core.List.{append-nil}
use openpact.Prelude.{
  ℕ, ◌+◌, ◌-◌, Text, Option, none, some, List, [], ◌∷◌, ◌++◌, ◌≡◌, refl, ap, ◌∙◌, arith, ◌==◌,
  if◌then◌else◌, map,
}
use openpact.Json.{Json, field}
use openpact.Invites.{InviteTokenPayload, TokenCodec, token_json, as_text}
use openpact.Invites.Token.{IsCodec, as_text-nullable}

-- A text is a 1 and its units, each raised by 2; a missing one is a 0.
abbrev write : List (Option Text) → Text
write [] = []
write (none ∷ items) = 0 ∷ write items
write (some s ∷ items) = 1 ∷ map (λ c. c + 2) s ++ write items

-- The text up to the first mark, and the items after it.
abbrev read : Text → Text × List (Option Text)
read [] = ([], [])
read (c ∷ t) =
    let (cur, items) = read t in
    if c == 0
    then ([], none ∷ items)
    else if c == 1
    then ([], some cur ∷ items)
    else ((c - 2) ∷ cur, items)

read-raised : (s t : Text) → read (map (λ c. c + 2) s ++ t) ≡ (s ++ (read t).0, (read t).1)
read-raised [] t = refl
read-raised (c ∷ s) t = ground (arith, read-raised s t)

read-write : (items : List (Option Text)) → read (write items) ≡ ([], items)
read-write [] = refl
read-write (none ∷ items) = ground (arith, read-write items)
read-write (some s ∷ items) = simp (read-raised s (write items), read-write items, append-nil)

abbrev items_of : Json → List (Option Text)
items_of j =
    as_text (field "pactId" j)
    ∷ as_text (field "nonce" j)
    ∷ as_text (field "expiresAt" j)
    ∷ as_text (field "pactName" j)
    ∷ as_text (field "pactPurpose" j)
    ∷ as_text (field "issuerDisplay" j)
    ∷ []

abbrev of_items : List (Option Text) → Option Json
of_items (some a ∷ some b ∷ some c ∷ d ∷ e ∷ f ∷ []) = some (
    token_json (record {
      pact_id = a;
      nonce = b;
      expires_at = c;
      pact_name = d;
      pact_purpose = e;
      issuer_display = f;
    }))
of_items other = none

abbrev marked : Text → Text
marked t = b'.' ∷ t

abbrev unmarked : Text → Option Text
unmarked [] = none
unmarked (c ∷ t) = some t

-- A date is the one unit of its text.
abbrev pub read_date : Text → Option ℕ
read_date [] = none
read_date (ms ∷ s) = some ms

abbrev pub print_date : ℕ → Text
print_date ms = ms ∷ []

abbrev pub codec : TokenCodec
codec = record {
  stringify = λ j. write (items_of j);
  parse = λ t. of_items (read t).1;
  to_base64url = marked;
  from_base64url = unmarked;
  parse_date = read_date;
}

items_of-token : (p : InviteTokenPayload) → of_items (items_of (token_json p)) ≡ some (token_json p)
items_of-token p =
    rw
      (
        as_text-nullable p.pact_name,
        as_text-nullable p.pact_purpose,
        as_text-nullable p.issuer_display,
      )
      refl

pub codec_laws : IsCodec codec
codec_laws = record {
  parse-stringify =
      λ p. ap (λ r. of_items r.1) (read-write (items_of (token_json p))) ∙ items_of-token p;
  from-to = λ p. refl;
  not_empty = λ p. refl;
}
