-- ===== src/Parsers/Rules/Verdict.antt =====
-- The verdict of a library's rules: the last rule that speaks of this platform and architecture
-- decides; a library with rules that all stay silent is left out.
use kaede.Prelude.{
  String, Bool, true, false, Option, none, some, List, [], ◌∷◌, ◌≡◌, refl, ◌∙◌, arith, str_eq,
  default, if◌then◌else◌, All, inl, inr, Option-cases, ◌&&◌,
}
use mathlib.Core.List.{Memᴰ}
use kaede.Outcome.{Error, ok, throw, Outcome-cases}
use kaede.Meta.{Rule, Library, Necessaries}
use kaede.Parsers.Platform.{
  Platform, Arch, x64, x86, any, exactly, Unified, unify_platform_with_arch,
}
use kaede.Parsers.Platform.Names.{read_name, unify-read_name}
use kaede.Parsers.Rules.{
  platform_eq, arch_eq, is_allow, is_rule_arch, handle_platform_rule, apply_rule, apply_rules,
  should_include_library,
}

-- Whether a platform's words cover a machine: the bare name of a platform means its x64 and x86.
abbrev pub covers : Option Unified → Platform → Arch → Bool
covers none platform arch = false
covers (some (p, any)) platform x64 = platform_eq p platform
covers (some (p, any)) platform x86 = platform_eq p platform
covers (some (p, any)) platform _ = false
covers (some (p, exactly a)) platform arch = platform_eq p platform && arch_eq a arch

-- A rule without an operating system allows only by the word "allow".
abbrev pub is_allowed : Option String → Bool
is_allowed none = false
is_allowed (some action) = str_eq action "allow"

module _ (platform : Platform) (arch : Arch) where
  -- What one rule says: nothing, or whether the library is allowed.
  abbrev pub says : Rule → Option Bool
  says rule = elim rule.os_name [
    | none ↦ some (is_allowed rule.action)
    | some name ↦
        if covers (read_name name) platform arch
        then some (str_eq (default "allow" rule.action) "allow")
        else none
  ]

  -- The last word of a list of rules.
  abbrev pub last_word : List Rule → Option Bool
  last_word [] = none
  last_word (rule ∷ rules) = elim (last_word rules) [ none ↦ says rule | some b ↦ some b ]

-- The names of operating systems in the rules are ones that `unifyPlatformWithArch` accepts.
abbrev pub IsKnown : Rule → Type 0
IsKnown rule =
    (name : String)
    → rule.os_name ≡ some name
    → (u : Unified) × (unify_platform_with_arch name ≡ ok u)

module _ (platform : Platform) (arch : Arch) where
  handle_platform_rule_lem :
      (action name : String) (u : Unified) (current : Bool)
      → unify_platform_with_arch name ≡ ok u
      → handle_platform_rule platform arch action name current
        ≡ ok (if covers (some u) platform arch then is_allow action else current)
  unfolding handle_platform_rule is_rule_arch
  handle_platform_rule_lem action name (p, any) current h = rw h (ground arith)
  handle_platform_rule_lem action name (p, exactly a) current h = rw h (ground arith)

  apply_rule-says :
      (rule : Rule) (current : Bool)
      → IsKnown rule
      → apply_rule platform arch rule current ≡ ok (default current (says platform arch rule))
  unfolding apply_rule
  apply_rule-says rule current k = elim (Option-cases rule.os_name) [
    | inl e ↦ ground arith
    | inr (name, e) ↦
        let (u, h) = k name e in
        ground (
          arith,
          handle_platform_rule_lem (default "allow" rule.action) name u current h,
          unify-read_name name u h,
        )
  ]

  apply_rules-last_word :
      (rules : List Rule) (current : Bool)
      → All IsKnown rules
      → apply_rules platform arch rules current
        ≡ ok (default current (last_word platform arch rules))
  unfolding apply_rules
  apply_rules-last_word [] current k = refl
  apply_rules-last_word (rule ∷ rules) current (k, ks) =
      rw (apply_rule-says rule current k) (apply_rules-last_word rules _ ks ∙ ground arith)

-- If unifyPlatformWithArch accepts every name of an operating system in the rules,
-- shouldIncludeLibrary includes a library exactly as the last rule that speaks of the machine's
-- platform and architecture says, leaves it out if it has rules and none of them speaks, and
-- includes it if it has no rules.
pub should_include_library-last_word :
    (necessaries : Necessaries) (library : Library)
    → All IsKnown (default [] library.rules)
    → should_include_library necessaries library
      ≡ ok (elim library.rules [
        | none ↦ true
        | some rules ↦ default false (last_word necessaries.platform necessaries.arch rules)
      ])
unfolding should_include_library
should_include_library-last_word necessaries library k = elim (Option-cases library.rules) [
  | inl e ↦ rw e
  | inr (rules, e) ↦
      rw e (apply_rules-last_word necessaries.platform necessaries.arch rules false (rw e at k))
]

module _ (platform : Platform) (arch : Arch) where
  apply_rule-throw :
      (rule : Rule) (current : Bool) (e : Error)
      → apply_rule platform arch rule current ≡ throw e
      → (name : String) × (rule.os_name ≡ some name) × (unify_platform_with_arch name ≡ throw e)
  unfolding apply_rule handle_platform_rule
  apply_rule-throw rule current e h = elim (Option-cases rule.os_name) [
    | inl none_ ↦ absurd (ground arith)
    | inr (name, named) ↦ (name, named, ground arith)
  ]

  apply_rules-throw :
      (rules : List Rule) (current : Bool) (e : Error)
      → apply_rules platform arch rules current ≡ throw e
      → (rule : Rule) × (name : String) × Memᴰ rule rules
        × (rule.os_name ≡ some name)
        × (unify_platform_with_arch name ≡ throw e)
  unfolding apply_rules
  apply_rules-throw [] current e h = absurd (cc)
  apply_rules-throw (rule ∷ rules) current e h =
      elim (Outcome-cases (apply_rule platform arch rule current)) [
        | inl (b, ran) ↦
            let (r, name, listed, named, unknown) = apply_rules-throw rules b e (rw ran at h) in
            (r, name, Memᴰ.tail listed, named, unknown)
        | inr (e', threw) ↦
            let (name, named, unknown) = apply_rule-throw rule current e (ground arith) in
            (rule, name, Memᴰ.head refl, named, unknown)
      ]

-- If shouldIncludeLibrary throws, some rule of the library has a name of an operating system on
-- which unifyPlatformWithArch throws that same error.
pub should_include_library-throw :
    (necessaries : Necessaries) (library : Library) (e : Error)
    → should_include_library necessaries library ≡ throw e
    → (rule : Rule) × (name : String) × Memᴰ rule (default [] library.rules)
      × (rule.os_name ≡ some name)
      × (unify_platform_with_arch name ≡ throw e)
unfolding should_include_library
should_include_library-throw necessaries library e h = elim (Option-cases library.rules) [
  | inl absent ↦ absurd (ground arith)
  | inr (rules, given) ↦
      rw given
        (apply_rules-throw necessaries.platform necessaries.arch rules false e (rw given at h))
]
