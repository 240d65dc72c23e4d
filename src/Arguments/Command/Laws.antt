-- ===== src/Arguments/Command/Laws.antt =====
-- create-command.ts: whose command line it is.
use kaede.Prelude.{String, Option, none, some, List, [], ◌∷◌, ◌++◌, ◌≡◌, refl, sym, ap, ◌∙◌}
use kaede.Outcome.{Outcome, ok, throw}
use kaede.Exec.{Exec, pure, lift, ◌>>=◌, >>=-eq-ok, pure_inj}
use kaede.Meta.{Account, Live, FinalizedPatch, Necessaries}
use kaede.Arguments.ClassPaths.{ClassPaths, get_class_paths}
use kaede.Arguments.Jvm.{get_jvm_arguments}
use kaede.Arguments.Game.{get_game_arguments}
use kaede.Arguments.Start.{get_java_binary, get_additional_start_arguments}
use kaede.Arguments.Replace.{replace_launch_arguments}
use kaede.Arguments.Command.{ArgumentHooks, Command, to_replace_of, some_account, create_command}

module _ {S : Type 0} (os_version launcher_version : String) (hooks : ArgumentHooks S)
    (live : S → Live) (necessaries : Necessaries) (patch : FinalizedPatch) where
  -- The five parts, each from the state that the one before has left, and the account that is there
  -- after them, for which the placeholders are replaced.
  pub record IsSignedIn (command : Command) (s s' : S) : Type 0 where
    pub jvm : List String
    pub class_paths : ClassPaths
    pub game : List String
    pub additional : List String
    pub s1 : S
    pub s2 : S
    pub s3 : S
    pub s4 : S
    pub s5 : S
    pub java_ran :
        get_java_binary hooks.java_binary_before necessaries patch s ≡ (ok command.java, s1)
    pub jvm_ran :
        get_jvm_arguments os_version hooks.jvm_before hooks.jvm_after necessaries patch s1
        ≡ (ok jvm, s2)
    pub class_paths_ran :
        get_class_paths hooks.class_paths_before necessaries patch s2 ≡ (ok class_paths, s3)
    pub game_ran :
        get_game_arguments hooks.game_before hooks.game_after
          (λ s. (live s).minecraft_arguments)
          necessaries
          patch
          s3
        ≡ (ok game, s4)
    pub additional_ran :
        get_additional_start_arguments hooks.additional_before necessaries patch s4
        ≡ (ok additional, s5)
    pub account : Account
    pub is_there : (live s5).account ≡ some account
    pub replaced :
        replace_launch_arguments launcher_version hooks.replace_before hooks.replace_after account
          (additional
            ++ jvm
            ++ (class_paths.argument.0 ∷ class_paths.argument.1 ∷ [])
            ++ patch.main_class ∷ game)
          class_paths.class_paths
          necessaries
          patch
          s5
        ≡ (ok command.arguments, s')

-- Five outcomes, one after the other, before the rest of the code.
parts-inv :
    {S A B C D E F : Type 0} (a : Outcome A) (b : Outcome B) (c : Outcome C) (d : Outcome D)
    (e : Outcome E) (rest : A → B → C → D → E → Exec S F) (f : F) (s s' : S)
    → (do va ← lift a; vb ← lift b; vc ← lift c; vd ← lift d; ve ← lift e; rest va vb vc vd ve) s
      ≡ (ok f, s')
    → (va : A) × (vb : B) × (vc : C) × (vd : D) × (ve : E) × (a ≡ ok va)
      × (b ≡ ok vb)
      × (c ≡ ok vc)
      × (d ≡ ok vd)
      × (e ≡ ok ve)
      × (rest va vb vc vd ve s ≡ (ok f, s'))
parts-inv (throw x) b c d e rest f s s' h = absurd (cc)
parts-inv (ok va) (throw x) c d e rest f s s' h = absurd (cc)
parts-inv (ok va) (ok vb) (throw x) d e rest f s s' h = absurd (cc)
parts-inv (ok va) (ok vb) (ok vc) (throw x) e rest f s s' h = absurd (cc)
parts-inv (ok va) (ok vb) (ok vc) (ok vd) (throw x) rest f s s' h = absurd (cc)
parts-inv (ok va) (ok vb) (ok vc) (ok vd) (ok ve) rest f s s' h =
    (va, vb, vc, vd, ve, refl, refl, refl, refl, refl, h)

-- The end of the code, for the account that is there.
signed-inv :
    {S : Type 0} (java : String) (replace : Account → Exec S (List String)) (o : Option Account)
    (command : Command) (s s' : S)
    → (do
      auth ← lift (some_account o)
      arguments ← replace auth
      pure (record { java = java; arguments = arguments }))
        s
      ≡ (ok command, s')
    → (account : Account) × (o ≡ some account)
      × (command.java ≡ java)
      × (replace account s ≡ (ok command.arguments, s'))
signed-inv java replace none command s s' h = absurd (cc)
signed-inv java replace (some account) command s s' h =
    let (arguments, t, ran, last) =
      >>=-eq-ok (replace account) (λ found. pure (record { java = java; arguments = found })) h in
    let made : Command = record { java = java; arguments = arguments } in
    let (same, end) = pure_inj made command t s' last in
    (
      account,
      refl,
      ap (λ c. c.java) (sym same),
      ran
          ∙ ap (λ (c : Command). (ok c.arguments, t)) same
          ∙ ap (λ u. (ok command.arguments, u)) end,
    )

run-of_eq : {S A : Type 0} (m : Exec S A) (a : A) (s : S) → (m s).0 ≡ ok a → m s ≡ (ok a, (m s).1)
run-of_eq m a s e = ap (λ r. (r, (m s).1)) e

module _ {S : Type 0} (os_version launcher_version : String) (hooks : ArgumentHooks S)
    (live : S → Live) (necessaries : Necessaries) (patch : FinalizedPatch) where
  pub create_command-IsSignedIn :
      (command : Command) (s s' : S)
      → create_command os_version launcher_version hooks live necessaries patch s ≡ (ok command, s')
      → IsSignedIn os_version launcher_version hooks live necessaries patch command s s'
  unfolding create_command
  create_command-IsSignedIn command s s' h =
      let java_part = get_java_binary hooks.java_binary_before necessaries patch in
      let jvm_part =
        get_jvm_arguments os_version hooks.jvm_before hooks.jvm_after necessaries patch in
      let paths_part = get_class_paths hooks.class_paths_before necessaries patch in
      let game_part =
        get_game_arguments hooks.game_before hooks.game_after (λ t. (live t).minecraft_arguments)
          necessaries patch in
      let more_part = get_additional_start_arguments hooks.additional_before necessaries patch in
      let r1 = java_part s in
      let r2 = jvm_part r1.1 in
      let r3 = paths_part r2.1 in
      let r4 = game_part r3.1 in
      let r5 = more_part r4.1 in
      let (java, jvm, paths, game, more, e1, e2, e3, e4, e5, k) =
        parts-inv r1.0 r2.0 r3.0 r4.0 r5.0 _ command r5.1 s' h in
      let (account, found, java_same, ran) =
        signed-inv java
          (λ auth.
            replace_launch_arguments launcher_version hooks.replace_before hooks.replace_after auth
              (to_replace_of more jvm paths patch.main_class game) paths.class_paths necessaries
              patch)
          (live r5.1).account command r5.1 s' k in
      record {
        jvm = jvm;
        class_paths = paths;
        game = game;
        additional = more;
        s1 = r1.1;
        s2 = r2.1;
        s3 = r3.1;
        s4 = r4.1;
        s5 = r5.1;
        java_ran = run-of_eq java_part command.java s (e1 ∙ ap ok (sym java_same));
        jvm_ran = run-of_eq jvm_part jvm r1.1 e2;
        class_paths_ran = run-of_eq paths_part paths r2.1 e3;
        game_ran = run-of_eq game_part game r3.1 e4;
        additional_ran = run-of_eq more_part more r4.1 e5;
        account = account;
        is_there = found;
        replaced = ran;
      }
