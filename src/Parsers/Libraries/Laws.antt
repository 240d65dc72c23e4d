-- ===== src/Parsers/Libraries/Laws.antt =====
-- What parse-libraries.ts makes of a list of libraries when no hook answers, and that the
-- identities of natives and libraries never meet.
use Prim.Native.Nat.{◌≤◌}
use mathlib.Core.List.{append_assoc, append-nil}
use kaede.Prelude.{
  String, Bool, true, false, some, List, [], ◌∷◌, ◌++◌, ◌≡◌, ◌≢◌, refl, ap, sym, ◌∙◌, arith,
  if◌then◌else◌, ◌||◌,
}
use kaede.Prelude.Text.{count_of}
use kaede.Prelude.Text.Splitting.{count_of-append}
use kaede.Outcome as Result
use kaede.Outcome.{Outcome, ok, throw}
use kaede.Exec.{Exec, continue, >>=-eq-ok, pure, ◌>>=◌}
use kaede.Hooks.{IsSilent, or_else, catch_sync_response_hooks}
use kaede.Hooks.Laws.{sync-of_IsSilent}
use kaede.Statuses.{LauncherStatuses, libraries_failed_to_validate, set_current}
use kaede.Meta.{Library, Entry, not_an_object, without_name, Artifact, Necessaries}
use kaede.Parsers.ArtifactPath.Identity.{count_of-id, count_of-artifact}
use kaede.Parsers.Rules.{should_include_library}
use kaede.Parsers.Native.{check_is_native, parse_native}
use kaede.Parsers.Native.Laws.{parse_native-IsNativeOf}
use kaede.Parsers.Library.{parse_library}
use kaede.Parsers.Library.Placement.{parse_library-IsPlaced}
use kaede.Parsers.Libraries.{
  LibrariesHooks, pushed, parse_included, parse_entry, parse_entries, parse_libraries,
}

abbrev pub is_invalid : Entry → Bool
is_invalid (Entry.library l) = false
is_invalid _ = true

abbrev reported : Entry → LauncherStatuses → LauncherStatuses
reported entry s = if is_invalid entry then set_current libraries_failed_to_validate s else s

abbrev pub any_invalid : List Entry → Bool
any_invalid [] = false
any_invalid (entry ∷ entries) = is_invalid entry || any_invalid entries

module _ (delimiter : String) (necessaries : Necessaries) where
  count_of-native_id :
      (l : Library) (a : Artifact)
      → parse_native delimiter necessaries l ≡ ok (some a)
      → 2 ≤ count_of b':' a.id
  count_of-native_id l a h =
      let (name, place, named, placed, made) =
        parse_native-IsNativeOf delimiter necessaries l a h in
      rw made.id (rw count_of-append (omega (arith, count_of-artifact delimiter name place placed)))

  -- If parseNative makes an artifact of one library and parseLibrary one of another or the same,
  -- the two artifacts have different identities.
  pub native_id-ne-library_id :
      (is_maven : Bool) (l m : Library) (a b : Artifact)
      → parse_native delimiter necessaries l ≡ ok (some a)
      → parse_library delimiter necessaries is_maven m ≡ ok (some b)
      → a.id ≢ b.id
  native_id-ne-library_id is_maven l m a b ha hb e =
      let (name, place, named, placed, made) =
        parse_library-IsPlaced delimiter necessaries is_maven m b hb in
      let many = count_of-native_id l a ha in
      let one = count_of-id delimiter name place placed in
      omega (arith, ap (count_of b':') e, ap (count_of b':') made.id)

  module _ (is_maven : Bool) where
    -- The artifacts of an entry, with no state.
    pub artifacts_of : Entry → Outcome (List Artifact)
    artifacts_of (Entry.library l) =
        Result.◌>>=◌ (should_include_library necessaries l) λ to_include.
          if to_include
          then Result.◌>>=◌ (parse_library delimiter necessaries is_maven l) (λ artifact.
            if check_is_native l
            then Result.◌>>=◌ (parse_native delimiter necessaries l)
                (λ native. ok (pushed artifact ++ pushed native))
            else ok (pushed artifact))
          else ok []
    artifacts_of _ = ok []

    -- The artifacts of all entries, one after the other.
    pub all_artifacts : List Entry → Outcome (List Artifact)
    unfolding artifacts_of
    all_artifacts [] = ok []
    all_artifacts (entry ∷ entries) =
        Result.◌>>=◌ (artifacts_of entry)
          λ here. Result.◌>>=◌ (all_artifacts entries) λ there. ok (here ++ there)

    parse_entry-artifacts_of :
        (entry : Entry) (s : LauncherStatuses)
        → parse_entry delimiter necessaries is_maven entry s
          ≡ (artifacts_of entry, reported entry s)
    unfolding parse_entry artifacts_of parse_included
    parse_entry-artifacts_of not_an_object s = refl
    parse_entry-artifacts_of without_name s = refl
    parse_entry-artifacts_of (Entry.library l) s = ground arith

    entries-result :
        (entries : List Entry) (results : List Artifact) (s : LauncherStatuses)
        → (parse_entries delimiter necessaries is_maven entries results s).0
          ≡ Result.◌>>=◌ (all_artifacts entries) (λ more. ok (results ++ more))
    unfolding parse_entries all_artifacts
    entries-result [] results s = ap ok (sym (append-nil results))
    entries-result (entry ∷ entries) results s =
        rw (parse_entry-artifacts_of entry s) (go (artifacts_of entry) (entries-result entries))
      where
        go :
            (here : Outcome (List Artifact))
            → ((rs : List Artifact) (t : LauncherStatuses)
                → (parse_entries delimiter necessaries is_maven entries rs t).0
                  ≡ Result.◌>>=◌ (all_artifacts entries) (λ more. ok (rs ++ more)))
            → ((λ (m : Exec LauncherStatuses (List Artifact)). m >>= λ artifacts.
                  parse_entries delimiter necessaries is_maven entries (results ++ artifacts))
                (λ t. (here, reported entry s))
                s).0
              ≡ Result.◌>>=◌
                  (Result.◌>>=◌ here
                    λ a. Result.◌>>=◌ (all_artifacts entries) λ there. ok (a ++ there))
                  (λ more. ok (results ++ more))
        go (throw e) ih = refl
        go (ok a) ih = ih (results ++ a) (reported entry s) ∙ regroup (all_artifacts entries)
          where
            regroup :
                (o : Outcome (List Artifact))
                → Result.◌>>=◌ o (λ more. ok ((results ++ a) ++ more))
                  ≡ Result.◌>>=◌
                      (Result.◌>>=◌ o λ there. ok (a ++ there))
                      (λ more. ok (results ++ more))
            regroup (ok more) = ap ok (append_assoc results a more)
            regroup (throw e) = refl

    entries-statuses :
        (entries : List Entry) (results r : List Artifact) (s s' : LauncherStatuses)
        → parse_entries delimiter necessaries is_maven entries results s ≡ (ok r, s')
        → s' ≡ (if any_invalid entries then set_current libraries_failed_to_validate s else s)
    unfolding parse_entries
    entries-statuses [] results r s s' h = ground arith
    entries-statuses (entry ∷ entries) results r s s' h =
        let (a, t, first, rest) =
          >>=-eq-ok (parse_entry delimiter necessaries is_maven entry) _ h in
        let ih = entries-statuses entries (results ++ a) r t s' rest in
        let here : t ≡ reported entry s =
          ap (λ q. q.1) (sym first ∙ parse_entry-artifacts_of entry s) in
        rw ih (rw here (ground arith))

    -- With no hook registered, the loop is the whole of `parseLibraries`.
    parse_libraries-of_IsSilent :
        (hooks : LibrariesHooks) (libraries : List Entry) (s : LauncherStatuses)
        → IsSilent hooks.before
        → IsSilent hooks.after
        → parse_libraries delimiter necessaries is_maven hooks libraries s
          ≡ parse_entries delimiter necessaries is_maven libraries [] s
    unfolding parse_libraries
    parse_libraries-of_IsSilent hooks libraries s b a =
        sync-of_IsSilent hooks.before _ _ s b
        ∙ go (parse_entries delimiter necessaries is_maven libraries [] s)
      where
        go :
            (p : Outcome (List Artifact) × LauncherStatuses)
            → continue p.0
                (λ results.
                  catch_sync_response_hooks hooks.after (record {
                    necessaries = necessaries;
                    libraries = libraries;
                    parsed = some results;
                  })
                  >>= λ after. or_else after (pure results))
                p.1
              ≡ p
        go (ok results, t) = sync-of_IsSilent hooks.after _ (pure results) t a
        go (throw e, t) = refl

-- Where no hook for the parsing of libraries is registered, parseLibraries returns the artifacts
-- of the entries in their order, each included library's own artifact before its native's, or the
-- first exception of an entry; and if it returns, the status has changed exactly if some entry is
-- no object with a name.
pub parse_libraries-all_artifacts :
    (delimiter : String) (necessaries : Necessaries) (is_maven : Bool) (hooks : LibrariesHooks)
    (libraries : List Entry) (s : LauncherStatuses)
    → IsSilent hooks.before
    → IsSilent hooks.after
    → ((parse_libraries delimiter necessaries is_maven hooks libraries s).0
        ≡ all_artifacts delimiter necessaries is_maven libraries)
      × ((r : List Artifact) (s' : LauncherStatuses)
          → parse_libraries delimiter necessaries is_maven hooks libraries s ≡ (ok r, s')
          → s' ≡ (if any_invalid libraries then set_current libraries_failed_to_validate s else s))
parse_libraries-all_artifacts delimiter necessaries is_maven hooks libraries s b a =
    let loop = parse_libraries-of_IsSilent delimiter necessaries is_maven hooks libraries s b a in
    (
      ap (λ q. q.0) loop ∙ entries-result delimiter necessaries is_maven libraries [] s ∙ unit _,
      λ r s' h. entries-statuses delimiter necessaries is_maven libraries [] r s s' (sym loop ∙ h),
    )
  where
    unit : (o : Outcome (List Artifact)) → Result.◌>>=◌ o (λ more. ok ([] ++ more)) ≡ o
    unit (ok more) = refl
    unit (throw e) = refl
