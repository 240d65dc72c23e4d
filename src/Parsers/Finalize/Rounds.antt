-- ===== src/Parsers/Finalize/Rounds.antt =====
-- One round of the loop of finalize-patches.ts, taken apart into its steps.
use kaede.Prelude.{String, Option, none, some, List, true, ◌≡◌, ap, ◌∙◌}
use kaede.Prelude.Dictionary.{Dictionary}
use kaede.Outcome.{ok}
use kaede.Exec.{>>=-eq-ok, pure_inj}
use kaede.Statuses.{LauncherStatuses}
use kaede.Meta.{Artifact, LoggingArtifact, Patch, Necessaries}
use kaede.Parsers.Libraries.{LibrariesHooks}
use kaede.Parsers.MainJar.{parse_logging, parse_main_jar}
use kaede.Parsers.Finalize.{Building, add_maven_files, add_artifacts_to_map, add_patch, after_round}

module _ (delimiter : String) (hooks : LibrariesHooks) (necessaries : Necessaries) where
  -- The steps of a round that returns, with the states between them.
  pub record Round (patch : Patch) (b b' : Building) (s s' : LauncherStatuses) : Type 0 where
    pub found : List Artifact
    pub with_libraries : Dictionary Artifact
    pub with_plus : Dictionary Artifact
    pub logging : Option LoggingArtifact
    pub client : Option Artifact
    pub s1 : LauncherStatuses
    pub s2 : LauncherStatuses
    pub s3 : LauncherStatuses
    pub s4 : LauncherStatuses
    pub maven_step :
        add_maven_files delimiter hooks necessaries patch.maven_files b.maven_files s
        ≡ (ok found, s1)
    pub libraries_step :
        add_artifacts_to_map delimiter hooks necessaries none patch.libraries b.unique s1
        ≡ (ok with_libraries, s2)
    pub plus_step :
        add_artifacts_to_map delimiter hooks necessaries
          (some true)
          patch.plus_libraries
          with_libraries
          s2
        ≡ (ok with_plus, s3)
    pub logging_step : parse_logging delimiter necessaries patch s3 ≡ (ok logging, s4)
    pub client_step : parse_main_jar delimiter necessaries patch s4 ≡ (ok client, s')
    pub result : after_round patch b found with_plus logging client ≡ b'

  pub add_patch-Round :
      (patch : Patch) (b b' : Building) (s s' : LauncherStatuses)
      → add_patch delimiter hooks necessaries patch b s ≡ (ok b', s')
      → Round patch b b' s s'
  unfolding add_patch
  add_patch-Round patch b b' s s' h =
      let (f, s1, h1, r1) =
        >>=-eq-ok (add_maven_files delimiter hooks necessaries patch.maven_files b.maven_files) _
          h in
      let (l, s2, h2, r2) =
        >>=-eq-ok (add_artifacts_to_map delimiter hooks necessaries none patch.libraries b.unique) _
          r1 in
      let (p, s3, h3, r3) =
        >>=-eq-ok
          (add_artifacts_to_map delimiter hooks necessaries (some true) patch.plus_libraries l) _
          r2 in
      let (g, s4, h4, r4) = >>=-eq-ok (parse_logging delimiter necessaries patch) _ r3 in
      let (c, s5, h5, r5) = >>=-eq-ok (parse_main_jar delimiter necessaries patch) _ r4 in
      let end = pure_inj (after_round patch b f p g c) b' s5 s' r5 in
      record {
        found = f;
        with_libraries = l;
        with_plus = p;
        logging = g;
        client = c;
        s1 = s1;
        s2 = s2;
        s3 = s3;
        s4 = s4;
        maven_step = h1;
        libraries_step = h2;
        plus_step = h3;
        logging_step = h4;
        client_step = h5 ∙ ap (λ t. (ok c, t)) end.1;
        result = end.0;
      }
