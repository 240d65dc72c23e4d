-- ===== src/FileManager/JsonFile/Failures.antt =====
-- When handleJsonFile throws, and when a file is stale.
use Prim.Native.Nat.{◌*◌}
use kaede.Prelude.{String, ℕ, suc, ◌+◌, ◌≤◌, ◌<◌, Option, List, ◌∷◌, ◌≡◌, ◌⊎◌, ◌↔◌, arith}
use kaede.Outcome.{Outcome, Error, ok, throw}
use kaede.Exec.{Exec}
use kaede.FileManager.{file_join}
use kaede.FileManager.JsonFile.{
  Files, Invalidation, day, check_days_difference, read_or_renew, or_default, handle_json_file,
}
use kaede.Json.{Json}

module _ {S : Type 0} (files : Files S) where
  or_default-throw :
      (path : String) (get : Exec S (Option Json)) (tried : Outcome (Option Json)) (e : Error)
      (t s' : S)
      → or_default files path get tried t ≡ (throw e, s')
      → (u : S) × (get u ≡ (throw e, s'))
  or_default-throw path get (ok value) e t s' h = absurd (cc)
  or_default-throw path get (throw x) e t s' h = (t, h)

  -- If handleJsonFile throws, getDefaultValue has thrown the same exception last.
  pub handle_json_file-throw :
      (base_directory : String) (path : List String) (get : Exec S (Option Json))
      (invalidation : Option (Invalidation S)) (e : Error) (s s' : S)
      → handle_json_file files base_directory path get invalidation s ≡ (throw e, s')
      → (u : S) × (get u ≡ (throw e, s'))
  unfolding handle_json_file
  handle_json_file-throw base_directory path get invalidation e s s' h =
      let place = file_join files.delimiter (base_directory ∷ path) in
      let tried = read_or_renew files place get invalidation s in
      or_default-throw place get tried.0 e tried.1 s' h

-- The difference of two times is more than a number of days exactly if one of the times is at
-- least one day more than that number after the other.
pub check_days_difference-lt_iff :
    (days from to : ℕ)
    → (days < check_days_difference from to)
      ↔ ((from + suc days * day ≤ to) ⊎ (to + suc days * day ≤ from))
unfolding check_days_difference
check_days_difference-lt_iff days from to = (λ h. ground arith, λ h. ground arith)
