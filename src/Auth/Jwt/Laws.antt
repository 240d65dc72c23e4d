-- ===== src/Auth/Jwt/Laws.antt =====
-- The text that is decoded is base64 with its padding.
use Prim.Native.Nat.{◌%◌}
use Prim.Native.Char.{Char, code}
use Prim.Native.String.{String, [], ◌∷◌, ◌++◌}
use kaede.Prelude.{ℕ, zero, suc, ◌+◌, ◌<◌, ◌==◌, ◌≡◌, ◌≢◌, refl, arith, Bool-cases, inl, inr}
use text.Mathlib.TextLemmas.{nil-append, cons-append}
use kaede.Auth.Jwt.{text_length, from_url, replace_url, equals_signs, missing, to_base64}

text_length-append : (s t : String) → text_length (s ++ t) ≡ text_length s + text_length t
text_length-append [] t = rw nil-append (omega arith)
text_length-append (c ∷ s) t = rw cons-append (omega (arith, text_length-append s t))

text_length-replace_url : (s : String) → text_length (replace_url s) ≡ text_length s
unfolding replace_url
text_length-replace_url [] = refl
text_length-replace_url (c ∷ s) = omega (arith, text_length-replace_url s)

text_length-equals_signs : (n : ℕ) → text_length (equals_signs n) ≡ n
text_length-equals_signs zero = refl
text_length-equals_signs (suc n) = omega (arith, text_length-equals_signs n)

-- A character of base64url and the one of base64 in its place.
pub data IsBase64Of : Char → Char → Type 0 where
  plus : (c d : Char) → code c ≡ b'-' → code d ≡ b'+' → IsBase64Of c d
  slash : (c d : Char) → code c ≡ b'_' → code d ≡ b'/' → IsBase64Of c d
  same : (c : Char) → code c ≢ b'-' → code c ≢ b'_' → IsBase64Of c c

-- The texts have the same length, and their characters correspond.
abbrev pub IsTranslated : String → String → Type 0
IsTranslated [] [] = Unit
IsTranslated (c ∷ s) (d ∷ t) = IsBase64Of c d × IsTranslated s t
IsTranslated _ _ = ⊥

-- A number of equals signs.
abbrev pub AreSigns : ℕ → String → Type 0
AreSigns zero [] = Unit
AreSigns (suc n) (d ∷ s) = (code d ≡ b'=') × AreSigns n s
AreSigns _ _ = ⊥

pub record IsPadded (part padded : String) : Type 0 where
  pub body : String
  pub signs : String
  pub count : ℕ
  pub parts : padded ≡ body ++ signs
  pub translated : IsTranslated part body
  pub are_signs : AreSigns count signs
  pub few : count < 4
  pub aligned : (text_length part + count) % 4 ≡ 0
  pub length : text_length padded ≡ text_length part + count

from_url-IsBase64Of : (c : Char) → IsBase64Of c (from_url c)
from_url-IsBase64Of c = elim (Bool-cases (code c == b'-')) [
  | inl e ↦ rw e (plus c "+" (ground arith) refl)
  | inr n ↦ elim (Bool-cases (code c == b'_')) [
    | inl e ↦ rw (n, e) (slash c "/" (ground arith) refl)
    | inr m ↦ rw (n, m) (same c (λ h. ground arith) (λ h. ground arith))
  ]
]

replace_url-IsTranslated : (s : String) → IsTranslated s (replace_url s)
unfolding replace_url
replace_url-IsTranslated [] = tt
replace_url-IsTranslated (c ∷ s) = (from_url-IsBase64Of c, replace_url-IsTranslated s)

equals_signs-AreSigns : (n : ℕ) → AreSigns n (equals_signs n)
equals_signs-AreSigns zero = tt
equals_signs-AreSigns (suc n) = (refl, equals_signs-AreSigns n)

-- The text that decodeJwtPayload hands to atob is the payload, character by character with a plus
-- for each minus sign and a slash for each underscore, and then as many equals signs, three at
-- most, as bring its length to a multiple of four.
pub to_base64-IsPadded : (part : String) → IsPadded part (to_base64 part)
unfolding to_base64
to_base64-IsPadded part =
    let count = missing (text_length part) in
    record {
      body = replace_url part;
      signs = equals_signs count;
      count = count;
      parts = refl;
      translated = replace_url-IsTranslated part;
      are_signs = equals_signs-AreSigns count;
      few = omega arith;
      aligned = omega arith;
      length = omega (
        arith,
        text_length-append (replace_url part) (equals_signs count),
        text_length-replace_url part,
        text_length-equals_signs count,
      );
    }
