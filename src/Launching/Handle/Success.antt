-- ===== src/Launching/Handle/Success.antt =====
-- handle-launch.ts: what has been done when a launch is reported as a success.
use mathlib.Core.Path.{subst}
use mathlib.Core.Option.{some-injective}
use kaede.Prelude.{
  String, ℕ, Bool, true, false, Option, none, some, List, ◌≡◌, refl, ap, str_eq, if◌then◌else◌,
}
use kaede.Outcome.{Outcome, ok}
use kaede.Exec.{Exec, >>=-eq-ok, pure_inj, Returned, Returned-of_eq}
use kaede.Statuses.{LauncherStatuses, Launch, set_status}
use kaede.Meta.{Account, Patch, FinalizedPatch, Necessaries}
use kaede.Parsers.Finalize.{finalize_patches}
use kaede.Patches.Resolve.{resolve_patch}
use kaede.Patches.SubPatches.{resolve_sub_patches}
use kaede.Patches.SubPatches.Closure.{IsClosure, resolve_sub_patches-IsClosure}
use kaede.Arguments.Command.Laws.{IsSignedIn, create_command-IsSignedIn}
use kaede.Arguments.Command.{Command, create_command}
use kaede.Launching.PreLaunch.{extract_pre_launch_information}
use kaede.Launching.Spawn.{LaunchResponse, failed, spawn_minecraft}
use kaede.Launching.Handle.{
  hold_arguments, hold_account, Instance, Launcher, on_statuses, of_entry, download_all, start_game,
  if_downloaded, with_patches, with_entry, launch_installed, if_confirmed, if_installed,
  with_modpack, install_archive, with_account, with_necessaries, handle_launch, install,
  is_installed, ensure_directories,
}
use kaede.Launching.Handle.Downloaded.{IsDownloaded, download_all-IsDownloaded}

of_on_statuses :
    {W A : Type 0} (m : Exec LauncherStatuses A) (a : A) (s s' : Launch W)
    → on_statuses m s ≡ (ok a, s')
    → Returned m a
of_on_statuses m a s s' h = Returned-of_eq m a s.1 (pure_eq h)
  where
    pure_eq : on_statuses m s ≡ (ok a, s') → (m s.1).0 ≡ ok a
    pure_eq e = ap (λ r. r.0) e

module _ {W : Type 0} (launcher : Launcher W) (fuel : ℕ) (inst : Instance) where
  -- What a launch with this response has gone through.
  pub record IsLaunched (answer : LaunchResponse) : Type 0 where
    pub necessaries : Necessaries
    pub extracted :
        Returned
          (extract_pre_launch_information launcher.host inst.preferences inst.id)
          (some necessaries)
    pub account : Account
    pub has_account : necessaries.account ≡ some account
    pub entry : Patch
    pub entry_resolved :
        Returned
          (resolve_patch launcher.sources necessaries none (of_entry inst.entry))
          (some entry)
    pub patches : List Patch
    pub closed : IsClosure launcher.sources necessaries entry patches
    pub patch : FinalizedPatch
    pub finalized :
        Returned
          (finalize_patches launcher.host.delimiter launcher.libraries_hooks necessaries patches)
          patch
    pub downloaded : IsDownloaded launcher fuel inst necessaries patch
    pub command : Command
    pub created :
        (s : Launch W) × (s' : Launch W) × IsSignedIn launcher.os_version launcher.launcher_version
          launcher.argument_hooks
          (λ t. launcher.live t.0)
          necessaries
          patch
          command
          s
          s'
    pub spawned : Returned (spawn_minecraft launcher.spawning command inst.id necessaries) answer

  module _ (answer : LaunchResponse) (success : answer.success ≡ true) where
    not_failed :
        {X : Type 0} (s s' : Launch W)
        → ◌≡◌ {A = Outcome (Option LaunchResponse) × Launch W}
            (ok (some failed), s)
            (ok (some answer), s')
        → X
    not_failed s s' h = absurd (cc)

    module _ (necessaries : Necessaries) (account : Account)
        (has_account : necessaries.account ≡ some account)
        (extracted : Returned
          (extract_pre_launch_information launcher.host inst.preferences inst.id)
          (some necessaries)) where
      start_game-inv :
          (patch : FinalizedPatch) (s s' : Launch W)
          → start_game launcher fuel inst necessaries patch s ≡ (ok (some answer), s')
          → (command : Command) × ((r : Launch W) × (r' : Launch W) × IsSignedIn launcher.os_version
                launcher.launcher_version launcher.argument_hooks
                (λ t. launcher.live t.0)
                necessaries
                patch
                command
                r
                r')
            × Returned (spawn_minecraft launcher.spawning command inst.id necessaries) answer
      unfolding start_game
      start_game-inv patch s s' h =
          let (command, t, created, more) =
            >>=-eq-ok
              (create_command launcher.os_version launcher.launcher_version launcher.argument_hooks
                (λ t. launcher.live t.0) necessaries patch)
              _ h in
          let (response, u, spawned, last) =
            >>=-eq-ok (spawn_minecraft launcher.spawning command inst.id necessaries) _ more in
          (
            command,
            (
              s,
              t,
              create_command-IsSignedIn launcher.os_version launcher.launcher_version
                  launcher.argument_hooks (λ t. launcher.live t.0) necessaries patch command s t
                  created,
            ),
            (
              t,
              u,
              subst
                  (λ r. spawn_minecraft launcher.spawning command inst.id necessaries t ≡ (ok r, u))
                  (some-injective response answer
                    (pure_inj (some response) (some answer) u s' last).0)
                  spawned,
            ),
          )

      module _ (entry : Patch)
          (resolved : Returned
            (resolve_patch launcher.sources necessaries none (of_entry inst.entry))
            (some entry))
          (patches : List Patch) (closed : IsClosure launcher.sources necessaries entry patches)
          (patch : FinalizedPatch)
          (finalized : Returned
            (finalize_patches launcher.host.delimiter launcher.libraries_hooks necessaries patches)
            patch) where
        if_downloaded-IsLaunched :
            (downloaded : Bool) (r r' s s' : Launch W)
            → download_all launcher fuel inst necessaries patch r ≡ (ok downloaded, r')
            → if_downloaded launcher fuel inst necessaries patch downloaded s
              ≡ (ok (some answer), s')
            → IsLaunched answer
        if_downloaded-IsLaunched false r r' s s' run h = not_failed s s' h
        if_downloaded-IsLaunched true r r' s s' run h =
            let (command, created, spawned) = start_game-inv patch s s' h in
            record {
              account = account;
              has_account = has_account;
              necessaries = necessaries;
              extracted = extracted;
              entry = entry;
              entry_resolved = resolved;
              patches = patches;
              closed = closed;
              patch = patch;
              finalized = finalized;
              downloaded = download_all-IsDownloaded launcher fuel inst necessaries patch r r' run;
              command = command;
              created = created;
              spawned = spawned;
            }

      module _ (entry : Patch)
          (resolved : Returned
            (resolve_patch launcher.sources necessaries none (of_entry inst.entry))
            (some entry)) where
        with_patches-IsLaunched :
            (found : Option (List Patch)) (r s s' : Launch W)
            → resolve_sub_patches launcher.sources necessaries entry fuel r ≡ (ok found, s)
            → with_patches launcher fuel inst necessaries found s ≡ (ok (some answer), s')
            → IsLaunched answer
        with_patches-IsLaunched none r s s' run h = absurd (cc)
        with_patches-IsLaunched (some patches) r s s' run h =
            let finalize =
              finalize_patches launcher.host.delimiter launcher.libraries_hooks necessaries
                patches in
            let (patch, t, e, more) = >>=-eq-ok (on_statuses finalize) _ h in
            let (downloaded, u, e', last) =
              >>=-eq-ok (download_all launcher fuel inst necessaries patch)
                (if_downloaded launcher fuel inst necessaries patch)
                {s = hold_arguments launcher fuel inst patch t} more in
            if_downloaded-IsLaunched entry resolved patches
              (resolve_sub_patches-IsClosure launcher.sources necessaries entry fuel patches r s
                run)
              patch (of_on_statuses finalize patch s t e) downloaded
              (hold_arguments launcher fuel inst patch t) u u s' e' last

      with_entry-IsLaunched :
          (found : Option Patch) (r s s' : Launch W)
          → resolve_patch launcher.sources necessaries none (of_entry inst.entry) r ≡ (ok found, s)
          → with_entry launcher fuel inst necessaries found s ≡ (ok (some answer), s')
          → IsLaunched answer
      with_entry-IsLaunched none r s s' run h = not_failed s s' h
      with_entry-IsLaunched (some entry) r s s' run h =
          let (found, t, e, more) =
            >>=-eq-ok (resolve_sub_patches launcher.sources necessaries entry fuel) _ h in
          with_patches-IsLaunched entry (r, s, run) found s t s' e more

      launch_installed-IsLaunched :
          (s s' : Launch W)
          → launch_installed launcher fuel inst necessaries s ≡ (ok (some answer), s')
          → IsLaunched answer
      unfolding launch_installed
      launch_installed-IsLaunched s s' h =
          let (unit, t, e, more) =
            >>=-eq-ok (ensure_directories launcher fuel inst necessaries) _ h in
          let (found, u, e', last) =
            >>=-eq-ok (resolve_patch launcher.sources necessaries none (of_entry inst.entry)) _
              more in
          with_entry-IsLaunched found t u s' e' last

      if_confirmed-IsLaunched :
          (confirmed : Bool) (s s' : Launch W)
          → if_confirmed launcher fuel inst necessaries confirmed s ≡ (ok (some answer), s')
          → IsLaunched answer
      if_confirmed-IsLaunched true s s' h = launch_installed-IsLaunched s s' h
      if_confirmed-IsLaunched false s s' h = not_failed (set_status "general-aborted" s).1 s' h

      if_installed-IsLaunched :
          (installed : Bool) (s s' : Launch W)
          → if_installed launcher fuel inst necessaries installed s ≡ (ok (some answer), s')
          → IsLaunched answer
      if_installed-IsLaunched true s s' h = launch_installed-IsLaunched s s' h
      if_installed-IsLaunched false s s' h =
          let (confirmed, t, e, more) = >>=-eq-ok launcher.confirm _ h in
          if_confirmed-IsLaunched confirmed t s' more

      with_modpack-IsLaunched :
          (path : Option String) (s s' : Launch W)
          → with_modpack launcher fuel inst necessaries path s ≡ (ok (some answer), s')
          → IsLaunched answer
      with_modpack-IsLaunched none s s' h = launch_installed-IsLaunched s s' h
      with_modpack-IsLaunched (some path) s s' h = go (str_eq path "") h
        where
          go :
              (b : Bool)
              → (if b
                    then launch_installed launcher fuel inst necessaries
                    else install launcher fuel inst necessaries path)
                  s
                ≡ (ok (some answer), s')
              → IsLaunched answer
          go true e = launch_installed-IsLaunched s s' e
          go false e =
              let r = install_archive launcher fuel inst path s in
              if_installed-IsLaunched (is_installed r.0) r.1 s' e

    with_account-IsLaunched :
        (account : Option Account) (necessaries : Necessaries) (r r' s s' : Launch W)
        → necessaries.account ≡ account
        → extract_pre_launch_information launcher.host inst.preferences inst.id r
          ≡ (ok (some necessaries), r')
        → with_account launcher fuel inst account necessaries s ≡ (ok (some answer), s')
        → IsLaunched answer
    with_account-IsLaunched none necessaries r r' s s' a run h = not_failed s s' h
    with_account-IsLaunched (some account) necessaries r r' s s' a run h =
        with_modpack-IsLaunched necessaries account a (r, r', run) inst.modpack_path s s' h

    with_necessaries-IsLaunched :
        (found : Option Necessaries) (r s s' : Launch W)
        → extract_pre_launch_information launcher.host inst.preferences inst.id r ≡ (ok found, s)
        → with_necessaries launcher fuel inst found s ≡ (ok (some answer), s')
        → IsLaunched answer
    with_necessaries-IsLaunched none r s s' run h = not_failed s s' h
    with_necessaries-IsLaunched (some necessaries) r s s' run h =
        with_account-IsLaunched necessaries.account necessaries r s
          (hold_account launcher fuel inst necessaries s) s' refl run h

    -- If handleLaunch returns a response with success, the information before the launch, as its
    -- hooks have left it, has an account, the patch of the instance's entry was resolved, the
    -- patches that were finalized are that patch and all that is required from it on, the four
    -- downloads returned true and the natives were extracted, the command is the one that
    -- createCommand made, for an account that was there by then, and the response is that of
    -- spawnMinecraft for this command.
    pub handle_launch-IsLaunched :
        (s s' : Launch W)
        → handle_launch launcher fuel inst s ≡ (ok (some answer), s')
        → IsLaunched answer
    unfolding handle_launch
    handle_launch-IsLaunched s s' h =
        let (found, t, e, more) =
          >>=-eq-ok (extract_pre_launch_information launcher.host inst.preferences inst.id) _ h in
        with_necessaries-IsLaunched found s t s' e more
