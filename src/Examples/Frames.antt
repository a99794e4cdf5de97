-- ===== src/Examples/Frames.antt =====
-- The frames under a coding of lists by their length.
use openpact.Prelude.{
  ℕ, ◌+◌, ◌-◌, ◌==◌, Option, none, some, List, [], ◌∷◌, ◌++◌, Bool, true, false, ◌≡◌, refl, ap,
  arith, length, if◌then◌else◌,
}
use openpact.Wire.{
  Bytes, Coding, MemberAuthResponse, RedeemRequest, member_response_encode, member_response_decode,
  redeem_request_encode, redeem_request_decode,
}
use openpact.Wire.RoundTrip.{
  IsCoding, null_if_empty, is_well_formed, HasTexts, member_response-round_trip,
}
use openpact.Wire.Sizes.{IsSized}

-- The first `n` units, and the rest.
abbrev split_at : ℕ → List ℕ → List ℕ × List ℕ
split_at n [] = ([], [])
split_at n (x ∷ xs) =
    let (a, b) = split_at (n - 1) xs in if n == 0 then ([], x ∷ xs) else (x ∷ a, b)

split_at-append : (xs ys : List ℕ) → split_at (length xs) (xs ++ ys) ≡ (xs, ys)
split_at-append [] [] = refl
split_at-append [] (y ∷ ys) = refl
split_at-append (x ∷ xs) ys = ground (arith, split_at-append xs ys)

abbrev read_list : Bytes → Option (List ℕ × Bytes)
read_list [] = none
read_list (n ∷ s) = some (split_at n s)

abbrev read_buffer : Bytes → Option (Option Bytes × Bytes)
read_buffer [] = none
read_buffer (n ∷ s) = some (null_if_empty (split_at n s).0, (split_at n s).1)

abbrev read_flag : Bytes → Option (Bool × Bytes)
read_flag [] = none
read_flag (n ∷ s) = some (n == 1, s)

abbrev coding : Coding
coding = record {
  string_size = λ s. length s + 1;
  string_encode = λ s. length s ∷ s;
  string_decode = read_list;
  buffer_size = λ b. length b + 1;
  buffer_encode = λ b. length b ∷ b;
  buffer_decode = read_buffer;
  bool_size = λ b. 1;
  bool_encode = λ b. (if b then 1 else 0) ∷ [];
  bool_decode = read_flag;
}

read_flag-written :
    (b : Bool) (rest : Bytes) → read_flag ((if b then 1 else 0) ∷ rest) ≡ some (b, rest)
read_flag-written true rest = refl
read_flag-written false rest = refl

coding_laws : IsCoding coding
coding_laws = record {
  string = λ s wf rest. ap some (split_at-append s rest);
  buffer = λ b rest. ap (λ p. some (null_if_empty p.0, p.1)) (split_at-append b rest);
  flag = read_flag-written;
}

coding_sizes : IsSized coding
coding_sizes = record { string = λ s. omega arith; buffer = λ b. omega arith; flag = λ b. refl }

abbrev accepted : MemberAuthResponse
accepted = record {
  corr = some (1 ∷ 2 ∷ []);
  ok = true;
  member_key = some (97 ∷ []);
  signer_key = some (98 ∷ []);
  signer_namespace = none;
  compat = some true;
  signature = some (7 ∷ []);
  code = none;
  message = none;
}

accepted_texts : HasTexts accepted
unfolding is_well_formed
accepted_texts = record {
  member_key = refl;
  signer_key = refl;
  signer_namespace = refl;
  code = refl;
  message = refl;
}

member_response-round_trip_example :
    member_response_decode coding (member_response_encode coding accepted ++ 5 ∷ [])
    ≡ some (accepted, 5 ∷ [])
member_response-round_trip_example =
    member_response-round_trip coding coding_laws accepted accepted_texts (5 ∷ [])

abbrev asking : RedeemRequest
asking = record { pact_id = 97 ∷ []; token = 98 ∷ []; writer_key = 99 ∷ []; corr = some (1 ∷ []) }

asking_returns :
    redeem_request_decode coding (redeem_request_encode coding asking ++ []) ≡ some (asking, [])
unfolding redeem_request_encode redeem_request_decode
asking_returns = refl
