-- ===== src/Lib.antt =====
-- Kaede is a launcher of Minecraft. This library models the part of it that turns the metadata of
-- patches (the game, the loaders, the libraries of LWJGL) into a command line, with the downloads
-- that it needs and the hooks by which extensions take part.
--
-- How a launch uses the parts: the selected account is refreshed; the metadata of the entry patch and
-- of all that it requires is read from the cache or a server; these patches are finalized into one,
-- which lists the artifacts (libraries, natives, maven files), the client jar and the logging
-- configuration; the artifacts are downloaded by concurrent calls that share the statuses of the launch; the
-- arguments for the JVM and the game are put together and their placeholders replaced. Before and
-- after most of these steps the hooks of the extensions run, and may answer in the step's place.
--
-- Files, with the code they are about (paths from the root of the repository):
--   Prelude        shared names; JavaScript's texts (split, join, replace), Map and Set
--   Outcome, Exec  exceptions as values, and code on a state that may throw
--   Hooks          src/lib/hooks/*.ts: catchAsyncResponseHooks and its three kin
--   FileManager    src/lib/file-manager/join.ts
--     JsonFile                 src/lib/file-manager/handle-json-file.ts, check-days-difference.ts
--   Json           what JSON.parse gives
--   Meta, Statuses src/types/launcher/**, and the words of src/constants/launcher.ts
--   Parsers        src/lib/launcher/scopes/parsers/*.ts, and shallowly-validate-library.ts
--     Platform, Rules          unifyPlatformWithArch, handlePlatformRule, shouldIncludeLibrary
--     ArtifactPath, Url        normalizeArtifactPath, buildUrlFromBase
--     Native, Library          checkIsNative, parseNative, parseLibrary
--     Libraries                parseLibraries, with its hooks
--     MainJar, Finalize        parseMainJar, parseLogging, finalizePatches
--   Arguments      src/lib/launcher/scopes/arguments/*.ts, and create-command.ts
--     Split                    splitArguments, joinArguments
--     ClassPaths, Jvm, Game    getClassPaths, getJvmArguments, getGameArguments
--     Start                    getJavaBinary, getAdditionalStartArguments
--     Replace, Command         replaceLaunchArguments, createCommand
--   Network        src/lib/network and src/lib/launcher/scopes/fetching
--     Download                 concurrently-download.ts
--     Call                     concurrently-download.ts, as its callers see it
--     Http, Metadata           fetch, and fetch-metadata.ts
--   Patches        src/lib/launcher/scopes/patches/*.ts
--     Version, Resolve         resolvePatchVersion, resolvePatch
--     SubPatches               resolveSubPatches
--   Fetching       src/lib/launcher/scopes/fetching/download-*.ts
--     Platform                 the platform, and src/lib/file-manager/verify-paths.ts
--     Libraries, Client, Logging, Assets
--                              downloadLibraries, downloadClient, downloadLogging, downloadAssets
--   OptiFine       src/lib/launcher/scopes/optifine/*.ts
--     Version                  parseOptiFineVersion
--     Jar                      downloadOptiFineJar, inspectOptiFineJar, extractLaunchWrapper
--     Patch                    generateOptiFinePatch, resolveOptiFinePatch
--   Modrinth       src/lib/modrinth/install-mrpack.ts: installMrpack
--     Versions                 resolvePatchVersions
--   Launching      src/lib/launcher/scopes
--     PreLaunch                extractors/extract-pre-launch-information.ts
--     Directories              validators/*.ts
--     Natives, Spawn           extractors/extract-native-archives.ts, spawn-minecraft.ts
--     Handle                   handle-launch.ts
--   Auth           src/lib/auth/scopes/*.ts, src/lib/configs/scopes/write-accounts.ts
--     Jwt                      decodeJwtPayload
--     Requests                 requestMicrosoftTokens, authenticateWithXboxLive, authorizeWithXsts,
--                              fetchMinecraftToken, fetchMinecraftProfile
--     Chain                    fetchSkinAsBase64, completeAuthenticationChain, signInWithMicrosoft
--     Fresh, LaunchAccount     ensureFreshAccount, buildLaunchAuth, resolveLaunchAccount
--   Samples        a machine and a disk in memory, for the tests
--   Permissions    src/lib/permissions/**
--     Internet                 the guard and the requests of atomic/internet.ts
--     Handle                   handlePermission with the scopes of atomic/*.ts
--     Store                    __requestPermissions, grantStaticPermissions
--
-- A function keeps the name of the source in snake case. A function that throws returns an Outcome,
-- one that also writes the statuses of the launch is an Exec: a function from the statuses to the
-- outcome and the statuses after it. `undefined` and `false` results are `none`. A loop is
-- structural recursion over its array, so that no fuel is needed and every function is total. Only
-- the queue of resolveSubPatches takes fuel, one for each group of dependencies: enough of it is the
-- size of the tree of the dependencies, and there is none where they go round.
-- A text is a sequence of code points, where JavaScript has UTF-16 units.
--
-- Hooks are arbitrary actions on a state, with the objects that the source lets them change as part
-- of it where the code reads them afterwards: the arrays and tables that are passed on, and of the
-- information of a launch and of the finalized patch the account and the game arguments, as Live has
-- them. Promise.all runs its parts one after the other, in one of the orders that are possible, and
-- each to its end where it writes. The join delimiter, the version of the operating system and that of
-- the launcher are parameters, and the backend that downloads is an arbitrary sequence of messages and
-- reports.
--
-- Not modelled: logging and time measurements; that finalizePatches reverses the caller's array in
-- place; what hooks other than those of the information before the launch change of its other fields and
-- of the other fields of the finalized patch; placeholders' keys that are special in a regular
-- expression, and a table that a hook has emptied; object keys that look like array indices, which
-- JavaScript lists first. JSON numbers are the natural ones, and a field that the services give as a
-- text is read as one. The files, the clock, the network, the confirmations and the generated
-- validators are parameters, as are JSON.parse, JSON.stringify, atob, TextDecoder and what the backend
-- does with archives. The rest of the launcher (the user interface, instances, configurations and the
-- native backend) is not part of this library.
pub mod Prelude
pub mod Outcome
pub mod Exec
pub mod Hooks
pub mod FileManager
pub mod Meta
pub mod Statuses
pub mod Parsers
pub mod Arguments
pub mod Network
pub mod Permissions
pub mod Json
pub mod OptiFine
pub mod Modrinth
pub mod Patches
pub mod Auth
pub mod Fetching
pub mod Launching
pub mod Samples
