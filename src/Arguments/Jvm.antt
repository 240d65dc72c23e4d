-- ===== src/Arguments/Jvm.antt =====
-- get-jvm-arguments.ts, with the `JVMArguments` of constants/launcher.ts.
use Prim.Native.String.{◌++◌ as ◌⊕◌}
use text.Mathlib.Text.{starts_with}
use kaede.Prelude.{String, Option, none, some, List, [], ◌∷◌, ◌++◌, default, if◌then◌else◌}
use kaede.Prelude.Text.Replacing.{replace_first}
use kaede.Prelude.Unique.{has}
use kaede.Exec.{Exec, pure, ◌>>=◌, share}
use kaede.Hooks.{Hook, or_else, catch_async_response_hooks}
use kaede.Parsers.Platform.{Platform, windows, macos, linux}
use kaede.Meta.{LoggingArtifact, FinalizedPatch, Necessaries}

-- Object.values(JVMArguments.Default)
abbrev pub default_arguments : List String
default_arguments =
    "-Dlog4j2.formatMsgNoLookups=true" ∷ "-Djava.net.useSystemProxiestrue"
    ∷ "-Dfml.ignoreInvalidMinecraftCertificates=true" ∷ "-Dfml.ignorePatchDiscrepancies=true"
    ∷ "-DlibraryDirectory=${libraries_directory}" ∷ "-Djava.library.path=${natives_directory}"
    ∷ "-Dminecraft.client.jar=${main_jar_path}" ∷ "-Djna.tmpdir=${natives_directory}"
    ∷ "-Dorg.lwjgl.system.SharedLibraryExtractPath=${natives_directory}"
    ∷ "-Dio.netty.native.workdir=${natives_directory}"
    ∷ "-Dminecraft.launcher.brand=${launcher_name}"
    ∷ "-Dminecraft.launcher.version=${launcher_version}" ∷ "-Duser.language=en" ∷ []

-- JVMArguments.WindowsNonIterable and JVMArguments.MacOSNonIterable
abbrev pub dos_arguments : List String
dos_arguments = "-Dos.name=Windows 10" ∷ "-Dos.version=10.0" ∷ []

abbrev pub mojang_tricks : String
mojang_tricks =
    "-XX:HeapDumpPath=MojangTricksIntelDriversForPerformance_javaw.exe_minecraft.exe.heapdump"

abbrev pub first_thread : String
first_thread = "-XstartOnFirstThread"

-- The arguments of the `switch` on the platform; the system's version is what `version()` of the
-- os plugin gives.
abbrev pub platform_arguments : Platform → String → FinalizedPatch → List String
platform_arguments windows version patch =
    (if starts_with version "10" then dos_arguments else []) ++ mojang_tricks ∷ []
platform_arguments macos version patch =
    if has "FirstThreadOnMacOS" patch.traits then first_thread ∷ [] else []
platform_arguments linux version patch = []

abbrev pub log_file_path : Platform → LoggingArtifact → String
log_file_path windows logging = "file:///" ⊕ logging.artifact.path
log_file_path macos logging = logging.artifact.path
log_file_path linux logging = logging.artifact.path

abbrev pub logging_arguments : Platform → Option LoggingArtifact → List String
logging_arguments platform none = []
logging_arguments platform (some logging) =
    replace_first "${path}" (log_file_path platform logging) logging.argument ∷ []

-- what is pushed onto the array between the hooks
unfoldable pub build_jvm_arguments :
    String → Necessaries → FinalizedPatch → List String → List String
build_jvm_arguments version necessaries patch array =
    array
    ++ default_arguments
    ++ patch.jvm_args
    ++ default [] necessaries.jvm_arguments
    ++ platform_arguments necessaries.platform version patch
    ++ logging_arguments necessaries.platform patch.logging

-- The hooks before it may change the empty array; those after it do not get the array.
unfoldable pub get_jvm_arguments :
    {S : Type 0}
    → String
    → Option (List (Hook (S × List String) (Necessaries × FinalizedPatch) (List String)))
    → Option (List (Hook S (Necessaries × FinalizedPatch) (List String)))
    → Necessaries
    → FinalizedPatch
    → Exec S (List String)
get_jvm_arguments version before after necessaries patch = do
  answer ← share [] (catch_async_response_hooks before (necessaries, patch))
  or_else answer.0 (do
    last ← catch_async_response_hooks after (necessaries, patch)
    or_else last (pure (build_jvm_arguments version necessaries patch answer.1)))
