-- ===== src/Parsers/Platform/Names.antt =====
-- The grammar of the names that unify-platform-with-arch.ts accepts: an optional "natives-", a
-- word for the platform, and a suffix for the architecture.
use Prim.Native.String.{[] as nil, ◌∷◌ as cons}
use kaede.Prelude.{
  String, code, Option, none, some, List, [], ◌∷◌, ◌≡◌, ◌∙◌, ap, ◌==◌, arith, if◌then◌else◌, str_eq,
  eq_iff, Bool-cases, inl, inr, All, default,
}
use kaede.Outcome.{ok}
use kaede.Parsers.Platform.{
  Platform, windows, macos, linux, x64, x86, arm64, arm32, UnifiedArch, any, exactly, Unified,
  platform_cases, switch, unify_platform_with_arch,
}

-- the rest of a text after a prefix
strip : String → String → Option String
strip nil s = some s
strip (cons c p) nil = none
strip (cons c p) (cons d s) = let rest = strip p s in if code c == code d then rest else none

-- the first key that is a prefix, with the rest of the text
module _ {A : Type 0} where
  prefixed : List (String × A) → String → Option (A × String)
  prefixed [] s = none
  prefixed ((key, a) ∷ keys) s = elim (strip key s) [
    | none ↦ prefixed keys s
    | some rest ↦ some (a, rest)
  ]

  exact : List (String × A) → String → Option A
  exact [] s = none
  exact ((key, a) ∷ keys) s = if str_eq key s then some a else exact keys s

abbrev platform_words : List (String × Platform)
platform_words =
    ("linux", linux)
    ∷ ("windows", windows)
    ∷ ("osx", macos)
    ∷ ("macos", macos)
    ∷ ("mac-os", macos)
    ∷ []

abbrev arch_suffixes : List (String × UnifiedArch)
arch_suffixes =
    ("", any)
    ∷ ("-${arch}", any)
    ∷ ("-arm32", exactly arm32)
    ∷ ("-arm64", exactly arm64)
    ∷ ("-aarch_64", exactly arm64)
    ∷ ("-riscv64", exactly arm64)
    ∷ ("-x64", exactly x64)
    ∷ ("-64", exactly x64)
    ∷ ("-x86_64", exactly x64)
    ∷ ("-x86", exactly x86)
    ∷ ("-32", exactly x86)
    ∷ []

abbrev with_arch : Option (Platform × String) → Option Unified
with_arch none = none
with_arch (some (p, rest)) = elim (exact arch_suffixes rest) [ none ↦ none | some a ↦ some (p, a) ]

-- The reading of a name by the grammar.
unfoldable pub read_name : String → Option Unified
unfolding strip prefixed exact
read_name name = with_arch (prefixed platform_words (default name (strip "natives-" name)))

abbrev IsRead : String × Unified → Type 0
IsRead c = read_name c.0 ≡ some c.1

cases-IsRead : All IsRead platform_cases
unfolding read_name
cases-IsRead = assumption (tt)

switch-IsRead :
    (name : String) (cases : List (String × Unified)) (u : Unified)
    → All IsRead cases
    → switch name cases ≡ ok u
    → read_name name ≡ some u
unfolding switch
switch-IsRead name [] u a h = cc
switch-IsRead name ((key, v) ∷ cases) u (here, there) h = elim (Bool-cases (str_eq key name)) [
  | inl same ↦ rw (← ((eq_iff key name).0 same)) (here ∙ ap some (ground arith))
  | inr other ↦ switch-IsRead name cases u there (rw other at h)
]

-- If unifyPlatformWithArch accepts a name, it gives the platform and the architecture that a
-- grammar reads from it: an optional natives-, a word for the platform, and a suffix for the
-- architecture.
pub unify-read_name :
    (name : String) (u : Unified) → unify_platform_with_arch name ≡ ok u → read_name name ≡ some u
unfolding unify_platform_with_arch
unify-read_name name u h = switch-IsRead name platform_cases u cases-IsRead h
