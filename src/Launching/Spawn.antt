-- ===== src/Launching/Spawn.antt =====
-- spawn-minecraft.ts; what the process reports later comes to `on_exit` and `on_error`.
use kaede.Prelude.{String, ℕ, Bool, true, false, Option, none, some, List}
use kaede.Outcome.{Outcome, ok, throw}
use kaede.Exec.{Exec, pure, attempt, ◌>>=◌, ◌>>◌}
use kaede.Hooks.{Hook, VoidHook, catch_async_void_hooks}
use kaede.Statuses.{Launch, set_status}
use kaede.Meta.{Necessaries}
use kaede.Arguments.Command.{Command}
use kaede.Fetching.Platform.{unless_answered}

-- LaunchResponseType; a process is known by its PID
pub record LaunchResponse : Type 0 where
  pub success : Bool
  pub process : Option ℕ

abbrev pub failed : LaunchResponse
failed = record { success = false; process = none }

pub record SpawnPayload : Type 0 where
  pub command : Command
  pub instance_id : String
  pub necessaries : Necessaries
  pub process : Option ℕ

-- Processes.spawnProcess with a working directory, and the hooks.
pub record Spawning (W : Type 0) : Type 0 where
  pub spawn_process : Command → String → Exec (Launch W) ℕ
  pub launch_before : Option (List (Hook (Launch W) SpawnPayload LaunchResponse))
  pub launch_after : Option (List (VoidHook (Launch W) SpawnPayload))
  pub kill_after : Option (List (VoidHook (Launch W) ℕ))
  pub on_close : String → Exec (Launch W) (Unit {0})

module _ {W : Type 0} (spawning : Spawning W) where
  -- `onExit` and `onError` of the process
  unfoldable pub on_exit : String → ℕ → Exec (Launch W) (Unit {0})
  on_exit instance_id pid = do
    spawning.on_close instance_id
    catch_async_void_hooks spawning.kill_after pid

  unfoldable pub on_error : ℕ → Exec (Launch W) (Unit {0})
  on_error pid = do
    set_status "errors-unhandled-error"
    catch_async_void_hooks spawning.kill_after pid

  module _ (command : Command) (instance_id : String) (necessaries : Necessaries) where
    abbrev payload : Option ℕ → SpawnPayload
    payload process = record {
      command = command;
      instance_id = instance_id;
      necessaries = necessaries;
      process = process;
    }

    abbrev of_spawned : Outcome ℕ → Exec (Launch W) LaunchResponse
    of_spawned (throw e) = do set_status "errors-unhandled-error"; pure failed
    of_spawned (ok pid) = do
      catch_async_void_hooks spawning.launch_after (payload (some pid))
      set_status "general-success"
      pure (record { success = true; process = some pid })

    spawn : Exec (Launch W) LaunchResponse
    spawn = do
      tried ← attempt (spawning.spawn_process command necessaries.directories.instance_dir)
      of_spawned tried

    unfoldable pub spawn_minecraft : Exec (Launch W) LaunchResponse
    unfolding spawn
    spawn_minecraft = unless_answered spawning.launch_before (payload none) spawn
