-- ===== src/Parsers/Platform.antt =====
-- unify-platform-with-arch.ts: the `switch` over the names of platforms, as a table of its cases
-- in their order, and a lookup that throws on the `default` branch.
pub mod Names
use kaede.Prelude.{String, List, [], ◌∷◌, str_eq, if◌then◌else◌}
use kaede.Outcome.{Error, Outcome, ok, throw, unhandled_platform}

pub data Platform : Type 0 where
  windows macos linux : Platform

pub data Arch : Type 0 where
  x64 x86 arm64 arm32 : Arch

-- `PreLaunchInformationType["arch"] | "any"`
pub data UnifiedArch : Type 0 where
  any : UnifiedArch
  exactly : Arch → UnifiedArch

abbrev pub Unified : Type 0
Unified = Platform × UnifiedArch

abbrev pub platform_cases : List (String × Unified)
platform_cases =
    ("linux", (linux, any))
    ∷ ("linux-arm32", (linux, exactly arm32))
    ∷ ("linux-riscv64", (linux, exactly arm64))
    ∷ ("linux-arm64", (linux, exactly arm64))
    ∷ ("linux-x64", (linux, exactly x64))
    ∷ ("windows", (windows, any))
    ∷ ("windows-arm32", (windows, exactly arm32))
    ∷ ("windows-arm64", (windows, exactly arm64))
    ∷ ("windows-x64", (windows, exactly x64))
    ∷ ("osx", (macos, any))
    ∷ ("osx-arm64", (macos, exactly arm64))
    ∷ ("mac-os-arm64", (macos, exactly arm64))
    ∷ ("mac-os-x64", (macos, exactly x64))
    ∷ ("natives-linux", (linux, any))
    ∷ ("natives-linux-${arch}", (linux, any))
    ∷ ("natives-linux-arm32", (linux, exactly arm32))
    ∷ ("natives-linux-arm64", (linux, exactly arm64))
    ∷ ("natives-osx", (macos, any))
    ∷ ("natives-osx-${arch}", (macos, any))
    ∷ ("natives-osx-arm64", (macos, exactly arm64))
    ∷ ("natives-windows", (windows, any))
    ∷ ("natives-windows-${arch}", (windows, any))
    ∷ ("natives-macos", (macos, any))
    ∷ ("natives-macos-${arch}", (macos, any))
    ∷ ("natives-macos-arm64", (macos, exactly arm64))
    ∷ ("windows-aarch_64", (windows, exactly arm64))
    ∷ ("windows-x86_64", (windows, exactly x64))
    ∷ ("linux-aarch_64", (linux, exactly arm64))
    ∷ ("linux-x86_64", (linux, exactly x64))
    ∷ ("osx-aarch_64", (macos, exactly arm64))
    ∷ ("osx-x86_64", (macos, exactly x64))
    ∷ ("natives-windows-32", (windows, exactly x86))
    ∷ ("natives-windows-arm32", (windows, exactly arm32))
    ∷ ("natives-windows-arm64", (windows, exactly arm64))
    ∷ ("natives-windows-x86", (windows, exactly x86))
    ∷ ("natives-windows-64", (windows, exactly x64))
    ∷ ("natives-windows-x64", (windows, exactly x64))
    ∷ ("natives-windows-x86_64", (windows, exactly x64))
    ∷ ("natives-linux-32", (linux, exactly x86))
    ∷ ("natives-linux-x86", (linux, exactly x86))
    ∷ ("natives-linux-64", (linux, exactly x64))
    ∷ ("natives-linux-x64", (linux, exactly x64))
    ∷ ("natives-linux-x86_64", (linux, exactly x64))
    ∷ ("natives-osx-32", (macos, exactly x86))
    ∷ ("natives-osx-x86", (macos, exactly x86))
    ∷ ("natives-macos-32", (macos, exactly x86))
    ∷ ("natives-macos-x86", (macos, exactly x86))
    ∷ ("natives-osx-64", (macos, exactly x64))
    ∷ ("natives-osx-x64", (macos, exactly x64))
    ∷ ("natives-osx-x86_64", (macos, exactly x64))
    ∷ ("natives-macos-64", (macos, exactly x64))
    ∷ ("natives-macos-x64", (macos, exactly x64))
    ∷ ("natives-macos-x86_64", (macos, exactly x64))
    ∷ []

switch : String → List (String × Unified) → Outcome Unified
switch name [] = throw (unhandled_platform name)
switch name ((key, unified) ∷ cases) = if str_eq key name then ok unified else switch name cases

unfoldable pub unify_platform_with_arch : String → Outcome Unified
unfolding switch
unify_platform_with_arch name = switch name platform_cases
