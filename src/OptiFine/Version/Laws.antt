-- ===== src/OptiFine/Version/Laws.antt =====
-- parse-optifine-version.ts: which versions are parsed, and into what.
use Prim.Native.Char.{Char, code}
use Prim.Native.String.{◌∷◌ as cons_char, ◌++◌ as ◌⊕◌}
use mathlib.Core.Option.{some-injective}
use mathlib.Core.Path.{subst}
use text.Mathlib.TextLemmas.{nil-append, cons-append}
use text.Mathlib.TextEquality.{Char-path}
use kaede.Prelude.{
  String, Bool, true, false, not, ◌&&◌, Option, none, some, ◌≡◌, refl, sym, ap, ◌∙◌, ◌≢◌, ◌↔◌,
  str_eq, eq_iff, arith, if◌then◌else◌,
}
use kaede.Prelude.Text.{Free}
use kaede.Prelude.Text.Cutting.{
  cut_first, cut_last, cut_first-append, cut_last-append, cut_first-inv, cut_last-inv,
}
use kaede.OptiFine.Version.{
  ParsedVersion, separator, all_filled, filled, of_last, of_first, parse_optifine_version,
}

-- the three parts with a separator between each two
abbrev pub print : ParsedVersion → String
print v = v.minecraft_version ⊕ ("_" ⊕ (v.type ⊕ ("_" ⊕ v.patch)))

pub record IsVersion (v : ParsedVersion) : Type 0 where
  pub minecraft_version_filled : v.minecraft_version ≢ ""
  pub type_filled : v.type ≢ ""
  pub patch_filled : v.patch ≢ ""
  pub minecraft_version_plain : Free separator v.minecraft_version
  pub patch_plain : Free separator v.patch

-- The text of the separator before another text.
underscore_of : (s : String) → (d : Char) × (code d ≡ separator) × ("_" ⊕ s ≡ cons_char d s)
unfolding cut_first
underscore_of s =
    let ((d, is_separator, cut), free) = cut_first-inv separator "_" "" "" refl in
    (
      d,
      is_separator,
      ap (λ x. x ⊕ s) (cut ∙ nil-append (cons_char d ""))
          ∙ cons-append d "" s
          ∙ ap (cons_char d) (nil-append s),
    )

underscore-of_eq : (d : Char) (s : String) → code d ≡ separator → cons_char d s ≡ "_" ⊕ s
underscore-of_eq d s e =
    let (u, is_separator, same) = underscore_of s in
    ap (λ c. cons_char c s) (Char-path d u (e ∙ sym is_separator)) ∙ sym same

cut_first-print :
    (p s : String) → Free separator p → cut_first separator (p ⊕ ("_" ⊕ s)) ≡ some (p, s)
cut_first-print p s =
    let (d, e, same) = underscore_of s in
    subst (λ c. Free c p → cut_first c (p ⊕ ("_" ⊕ s)) ≡ some (p, s)) e
      (λ h. ap (λ x. cut_first (code d) (p ⊕ x)) same ∙ cut_first-append p d s h)

cut_last-print :
    (p s : String) → Free separator s → cut_last separator (p ⊕ ("_" ⊕ s)) ≡ some (p, s)
cut_last-print p s =
    let (d, e, same) = underscore_of s in
    subst (λ c. Free c s → cut_last c (p ⊕ ("_" ⊕ s)) ≡ some (p, s)) e
      (λ h. ap (λ x. cut_last (code d) (p ⊕ x)) same ∙ cut_last-append p d s h)

str_eq-of_ne : (s t : String) → s ≢ t → str_eq s t ≡ false
str_eq-of_ne s t h = ground (arith, eq_iff s t)

all_filled-IsVersion : (v : ParsedVersion) → IsVersion v → all_filled v ≡ true
all_filled-IsVersion v h =
    rw (str_eq-of_ne v.minecraft_version "" h.minecraft_version_filled)
      (rw (str_eq-of_ne v.type "" h.type_filled) (rw (str_eq-of_ne v.patch "" h.patch_filled) refl))

parse-print : (v : ParsedVersion) → IsVersion v → parse_optifine_version (print v) ≡ some v
unfolding parse_optifine_version
parse-print v h =
    ap of_first
      (cut_first-print v.minecraft_version (v.type ⊕ ("_" ⊕ v.patch)) h.minecraft_version_plain)
    ∙ ap (of_last v.minecraft_version) (cut_last-print v.type v.patch h.patch_plain)
    ∙ rw (all_filled-IsVersion v h) refl

filled-inv : (w v : ParsedVersion) → filled w ≡ some v → (w ≡ v) × (all_filled w ≡ true)
filled-inv w v h = go (all_filled w) refl h
  where
    go :
        (b : Bool)
        → all_filled w ≡ b
        → (if b then some w else none) ≡ some v
        → (w ≡ v) × (all_filled w ≡ true)
    go true e k = (some-injective w v k, e)
    go false e k = absurd (cc)

not_empty :
    (a b c : String)
    → (not (str_eq a "") && not (str_eq b "") && not (str_eq c "")) ≡ true
    → (a ≢ "") × (b ≢ "") × (c ≢ "")
not_empty a b c h =
    (ground (arith, eq_iff a ""), ground (arith, eq_iff b ""), ground (arith, eq_iff c ""))

parse_optifine_version-inv :
    (version : String) (v : ParsedVersion)
    → parse_optifine_version version ≡ some v
    → IsVersion v × (version ≡ print v)
unfolding parse_optifine_version
parse_optifine_version-inv version v h = of_cut (cut_first separator version) refl h
  where
    of_rest :
        (mc rest : String) (o : Option (String × String))
        → cut_first separator version ≡ some (mc, rest)
        → cut_last separator rest ≡ o
        → of_last mc o ≡ some v
        → IsVersion v × (version ≡ print v)
    of_rest mc rest none first last k = absurd (cc)
    of_rest mc rest (some (type, patch)) first last k =
        let (same, is_filled) = filled-inv _ v k in
        let (mc_filled, type_filled, patch_filled) = not_empty mc type patch is_filled in
        let ((d, d_is, cut), mc_plain) = cut_first-inv separator version mc rest first in
        let ((e, e_is, cut'), patch_plain) = cut_last-inv separator rest type patch last in
        subst (λ x. IsVersion x × (version ≡ print x)) same
          (
            record {
              minecraft_version_filled = mc_filled;
              type_filled = type_filled;
              patch_filled = patch_filled;
              minecraft_version_plain = mc_plain;
              patch_plain = patch_plain;
            },
            cut
                ∙ ap (λ x. mc ⊕ x)
                    (underscore-of_eq d rest d_is
                      ∙ ap (λ x. "_" ⊕ x)
                          (cut' ∙ ap (λ x. type ⊕ x) (underscore-of_eq e patch e_is))),
          )

    of_cut :
        (o : Option (String × String))
        → cut_first separator version ≡ o
        → of_first o ≡ some v
        → IsVersion v × (version ≡ print v)
    of_cut none first k = absurd (cc)
    of_cut (some (mc, rest)) first k = of_rest mc rest (cut_last separator rest) first refl k

-- parseOptiFineVersion gives three parts exactly if none of them is empty, neither the version of
-- Minecraft nor the patch holds an underscore, and the text is the three with an underscore
-- between each two.
pub parse_optifine_version_iff :
    (version : String) (v : ParsedVersion)
    → parse_optifine_version version ≡ some v ↔ (IsVersion v × (version ≡ print v))
parse_optifine_version_iff version v = (
  parse_optifine_version-inv version v,
  λ (is, same). ap parse_optifine_version same ∙ parse-print v is,
)
