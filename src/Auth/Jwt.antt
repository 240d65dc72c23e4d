-- ===== src/Auth/Jwt.antt =====
-- decode-jwt-payload.ts: the payload of a JWT, where `null` is `none`.
pub mod Laws
use Prim.Native.Nat.{◌%◌}
use Prim.Native.Char.{Char, code}
use Prim.Native.String.{String, [], ◌∷◌, ◌++◌}
use kaede.Prelude.{ℕ, zero, suc, ◌-◌, Option, none, some, ◌==◌, if◌then◌else◌}
use mathlib.Core.List
use mathlib.Core.List.{List}
use kaede.Prelude.Text.{split}
use kaede.Json.{Json, Fields, object}

-- s.length, in code points
abbrev pub text_length : String → ℕ
text_length [] = 0
text_length (c ∷ s) = suc (text_length s)

-- s.replace(/-/g, "+").replace(/_/g, "/"), character by character
abbrev pub from_url : Char → Char
from_url c = if code c == b'-' then "+" else if code c == b'_' then "/" else c

unfoldable pub replace_url : String → String
replace_url [] = []
replace_url (c ∷ s) = from_url c ∷ replace_url s

-- "=".repeat(n)
abbrev pub equals_signs : ℕ → String
equals_signs zero = ""
equals_signs (suc n) = "=" ∷ equals_signs n

-- the characters that `padEnd` adds
abbrev pub missing : ℕ → ℕ
missing length = (4 - length % 4) % 4

unfoldable pub to_base64 : String → String
unfolding replace_url
to_base64 part = replace_url part ++ equals_signs (missing (text_length part))

-- an object, and neither `null` nor an array
abbrev pub as_object : Option Json → Option Fields
as_object (some (object fields)) = some fields
as_object _ = none

abbrev pub second_of_three : List String → Option String
second_of_three (List.◌∷◌ a (List.◌∷◌ b (List.◌∷◌ c List.[]))) = some b
second_of_three _ = none

module _ (parse_base64 : String → Option Json) where
  abbrev decode_part : Option String → Option Fields
  decode_part none = none
  decode_part (some part) = as_object (parse_base64 (to_base64 part))

  unfoldable pub decode_jwt_payload : String → Option Fields
  unfolding to_base64
  decode_jwt_payload token = decode_part (second_of_three (split b'.' token))
