-- ===== src/Parsers/Rules.antt =====
-- handle-platform-rule.ts and should-include-library.ts
pub mod Verdict
use kaede.Prelude.{
  String, Bool, true, false, Option, none, some, List, [], ◌∷◌, ◌&&◌, ◌||◌, not, str_eq, default,
  if◌then◌else◌,
}
use kaede.Outcome.{Outcome, ok, throw, ◌>>=◌}
use kaede.Meta.{Rule, Library, Necessaries}
use kaede.Parsers.Platform.{
  Platform, windows, macos, linux, Arch, x64, x86, arm64, arm32, UnifiedArch, any, exactly,
  unify_platform_with_arch,
}

-- `===` on platforms and on architectures
abbrev pub platform_eq : Platform → Platform → Bool
platform_eq windows windows = true
platform_eq macos macos = true
platform_eq linux linux = true
platform_eq _ _ = false

abbrev pub arch_eq : Arch → Arch → Bool
arch_eq x64 x64 = true
arch_eq x86 x86 = true
arch_eq arm64 arm64 = true
arch_eq arm32 arm32 = true
arch_eq _ _ = false

-- `isCompatibleArch` of a platform rule: "any" means x86_64 or x86
unfoldable pub is_rule_arch : UnifiedArch → Arch → Bool
is_rule_arch any arch = arch_eq arch x64 || arch_eq arch x86
is_rule_arch (exactly unified) arch = arch_eq unified arch

-- the action of a rule, as `allow` or not
abbrev is_allow : String → Bool
is_allow action = str_eq action "allow"

module _ (platform : Platform) (arch : Arch) where
  unfoldable pub handle_platform_rule : (action name : String) → Bool → Outcome Bool
  unfolding is_rule_arch
  handle_platform_rule action name current = do
    (unified_platform, unified_arch) ← unify_platform_with_arch name
    if not (platform_eq unified_platform platform) || not (is_rule_arch unified_arch arch)
        then ok current
        else ok (is_allow action)

  -- one round of the loop of `shouldIncludeLibrary`
  unfoldable pub apply_rule : Rule → Bool → Outcome Bool
  apply_rule rule current = elim rule.os_name [
    | none ↦ ok (elim rule.action [ none ↦ false | some action ↦ is_allow action ])
    | some name ↦ handle_platform_rule (default "allow" rule.action) name current
  ]

  -- the loop of `shouldIncludeLibrary`
  unfoldable pub apply_rules : List Rule → Bool → Outcome Bool
  apply_rules [] current = ok current
  apply_rules (rule ∷ rules) current = do next ← apply_rule rule current; apply_rules rules next

unfoldable pub should_include_library : Necessaries → Library → Outcome Bool
should_include_library necessaries library = elim library.rules [
  | none ↦ ok true
  | some rules ↦ apply_rules necessaries.platform necessaries.arch rules false
]
