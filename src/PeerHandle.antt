-- ===== src/PeerHandle.antt =====
-- packages/daemon/src/peer-handle.ts: handles `anon-<word>-<8 hex digits>` of public keys.
-- `none` is a thrown error.
pub mod Canonical
use Prim.Native.String.{String}
use openpact.Prelude.{
  ℕ, zero, suc, ◌+◌, ◌*◌, ◌%◌, Text, codes, text_eq, Option, none, some, List, [], ◌∷◌, ◌++◌, Bool,
  true, false, ◌&&◌, leb, ◌==◌, if◌then◌else◌, length, take,
}
use openpact.Hex.{to_hex, is_hex}
use openpact.Words.{word_list}

abbrev pub word_at : List String → ℕ → Text
word_at [] i = codes "undefined"
word_at (w ∷ ws) zero = codes w
word_at (w ∷ ws) (suc i) = word_at ws i

unfoldable pub word_index : ℕ → ℕ → ℕ
word_index b0 b1 = (b0 + b1 * 256) % length word_list

-- A public key given as a hex text is first turned into its bytes.
unfoldable pub derive : List ℕ → Option Text
derive (b0 ∷ b1 ∷ b2 ∷ b3 ∷ b4 ∷ b5 ∷ rest) = some (
    codes "anon-"
    ++ (word_at word_list (word_index b0 b1) ++ (codes "-" ++ to_hex (b2 ∷ b3 ∷ b4 ∷ b5 ∷ []))))
derive bs = none

abbrev pub is_lower : ℕ → Bool
is_lower c = leb 97 c && leb c 122

-- `[0-9a-f]{n}$`
match_hex : ℕ → Text → Bool
match_hex zero [] = true
match_hex zero (c ∷ s) = false
match_hex (suc n) [] = false
match_hex (suc n) (c ∷ s) = is_hex c && match_hex n s

-- `[a-z]+-[0-9a-f]{8}$`; `seen` says that a letter was read.
match_word : Bool → Text → Bool
match_word seen [] = false
match_word seen (c ∷ s) =
    let more = match_word true s in if is_lower c then more else seen && c == b'-' && match_hex 8 s

-- `HANDLE_RE.test(handle)`
unfoldable pub is_valid : Text → Bool
unfolding match_word match_hex
is_valid (a ∷ b ∷ c ∷ d ∷ e ∷ s) =
    text_eq (a ∷ b ∷ c ∷ d ∷ e ∷ []) (codes "anon-") && match_word false s
is_valid s = false
