-- ===== src/Wire/Sizes.antt =====
-- The room that `preencode` reserves for a frame.
use openpact.Prelude.{Text, Bool, ◌≡◌, length, length-append}
use openpact.Wire.{Bytes, Coding, MemberAuthResponse, member_response_size, member_response_encode}

-- What compact-encoding documents: each `preencode` adds the length of what `encode` writes.
pub record IsSized (c : Coding) : Type 0 where
  pub string : (s : Text) → length (c.string_encode s) ≡ c.string_size s
  pub buffer : (b : Bytes) → length (c.buffer_encode b) ≡ c.buffer_size b
  pub flag : (b : Bool) → length (c.bool_encode b) ≡ c.bool_size b

-- A member-auth response fills exactly the room that is reserved for it.
member_response-size :
    (c : Coding) (laws : IsSized c) (m : MemberAuthResponse)
    → length (member_response_encode c m) ≡ member_response_size c m
unfolding member_response_encode member_response_size
member_response-size c laws m = simp (length-append, laws.string, laws.buffer, laws.flag)
