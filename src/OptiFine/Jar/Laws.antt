-- ===== src/OptiFine/Jar/Laws.antt =====
-- download-optifine-jar.ts, inspect-optifine-jar.ts, extract-launchwrapper.ts: what has been done when
-- they give a path.
use mathlib.Core.Option.{some-injective}
use mathlib.Core.Path.{subst}
use kaede.Prelude.{
  String, ℕ, zero, suc, Bool, true, false, ◌||◌, Option, none, some, [], ◌∷◌, ltb, ◌≡◌, ◌≢◌, refl,
  sym, ap, ◌∙◌, ◌⊎◌, inl, inr, arith, str_eq, eq_iff, if◌then◌else◌,
}
use kaede.Prelude.Text.{concat}
use kaede.Prelude.Text.Trim.{trim}
use kaede.Outcome.{Outcome, ok, throw}
use kaede.Exec.{pure, lift, >>=-eq-ok, pure_inj, Returned, Returned-of_eq}
use kaede.FileManager.{file_join}
use kaede.Network.Download.{Report}
use kaede.Network.Call.{concurrently_download}
use kaede.Statuses.{Launch}
use kaede.Meta.{Necessaries}
use kaede.Parsers.ArtifactPath.{NormalizedPath, normalize_artifact_path}
use kaede.OptiFine.Version.{ParsedVersion}
use kaede.OptiFine.Jar.{
  Jars, artifact_name, download_url, Bundled, or_null, bundled_of, or_failed, unless_downloaded,
  jar_path, download_optifine_jar, bundled_in, inspect_optifine_jar, wrapper_path, or_failed_write,
  write_wrapper, with_contents, unless_extracted, extract_launch_wrapper,
}

module _ {W B : Type 0} (jars : Jars W B) (necessaries : Necessaries) where
  -- The jar was there, or has been downloaded from the address with no failure.
  abbrev pub IsFetchedFrom : String → String → Type 0
  IsFetchedFrom url jar =
      Returned (jars.platform.files.exists jar) true
      ⊎ ((report : Report) × Returned
            (concurrently_download jars.platform.backend (record { url = url; path = jar } ∷ []))
            report
          × (report.cancelled ≡ false)
          × (report.failed ≡ 0))

  -- The jar lies where the coordinate of the version says, and is the one of the three parts.
  pub record IsJarOf (parsed : ParsedVersion) (version jar : String) : Type 0 where
    pub place : NormalizedPath
    pub is_place :
        normalize_artifact_path jars.platform.files.delimiter
          (concat ("optifine:OptiFine:" ∷ version ∷ []))
        ≡ ok place
    pub at_place :
        jar
        ≡ file_join jars.platform.files.delimiter (
            file_join jars.platform.files.delimiter
              (necessaries.directories.libraries ∷ place.directory ∷ [])
            ∷ place.file
            ∷ [])
    pub fetched :
        IsFetchedFrom
          (concat (
            "https://bmclapi2.bangbang93.com/" ∷ "optifine/" ∷ parsed.minecraft_version ∷ "/"
            ∷ parsed.type ∷ "/" ∷ parsed.patch ∷ []))
          jar

  or_failed-inv :
      (path jar : String) (cancelled : Bool) (failed : ℕ)
      → (if cancelled || ltb 0 failed then none else some path) ≡ some jar
      → (path ≡ jar) × (cancelled ≡ false) × (failed ≡ 0)
  or_failed-inv path jar true failed h = absurd (cc)
  or_failed-inv path jar false zero h = (some-injective path jar h, refl, refl)
  or_failed-inv path jar false (suc n) h = absurd (ground arith)

  unless_downloaded-IsFetchedFrom :
      (path url jar : String) (downloaded : Bool) (r s s' : Launch W)
      → jars.platform.files.exists path r ≡ (ok downloaded, s)
      → unless_downloaded jars necessaries path url downloaded s ≡ (ok (some jar), s')
      → (path ≡ jar) × IsFetchedFrom url path
  unless_downloaded-IsFetchedFrom path url jar true r s s' run h =
      (some-injective path jar (pure_inj (some path) (some jar) s s' h).0, inl (r, s, run))
  unless_downloaded-IsFetchedFrom path url jar false r s s' run h =
      let (report, t, got, last) =
        >>=-eq-ok
          (concurrently_download jars.platform.backend (record { url = url; path = path } ∷ []))
          (λ report. pure (or_failed jars necessaries path report)) h in
      let (same, not_cancelled, no_failure) =
        or_failed-inv path jar report.cancelled report.failed
          (pure_inj (or_failed jars necessaries path report) (some jar) t s' last).0 in
      (same, inr (report, (s, t, got), not_cancelled, no_failure))

  pub download_optifine_jar-IsJarOf :
      (parsed : ParsedVersion) (version jar : String) (s s' : Launch W)
      → download_optifine_jar jars necessaries parsed version s ≡ (ok (some jar), s')
      → IsJarOf parsed version jar
  unfolding download_optifine_jar
  download_optifine_jar-IsJarOf parsed version jar s s' h =
      let (place, t, is_place, more) =
        >>=-eq-ok
          (lift (normalize_artifact_path jars.platform.files.delimiter (artifact_name version))) _
          h in
      let path = jar_path jars necessaries place in
      let (downloaded, u, run, last) = >>=-eq-ok (jars.platform.files.exists path) _ more in
      let (same, fetched) =
        unless_downloaded-IsFetchedFrom path (download_url parsed) jar downloaded t u s' run last in
      subst (IsJarOf parsed version) same (record {
        place = place;
        is_place = ap (λ r. r.0) is_place;
        at_place = refl;
        fetched = fetched;
      })

  -- What a read of the entry with the version of LaunchWrapper says when it names none.
  abbrev pub NamesNone : Outcome (Option B) → Type 0
  NamesNone (throw e) = Unit
  NamesNone (ok none) = Unit
  NamesNone (ok (some contents)) = trim (jars.decode contents) ≡ ""

  -- The jar has no version of LaunchWrapper in its entry.
  abbrev pub HasNoWrapper : String → Type 0
  HasNoWrapper jar =
      (o : Outcome (Option B)) × (s : Launch W) × (s' : Launch W) × (jars.read_entry jar
          "launchwrapper-of.txt" s
        ≡ (o, s'))
      × NamesNone o

  -- The jar has a version of LaunchWrapper in its entry.
  abbrev pub HasWrapper : String → String → Type 0
  HasWrapper jar version =
      (contents : B) × Returned (jars.read_entry jar "launchwrapper-of.txt") (some contents)
      × (trim (jars.decode contents) ≡ version)
      × (version ≢ "")

  bundled_of-none : (version : String) → bundled_of version ≡ none → version ≡ ""
  bundled_of-none version h = go (str_eq version "") _ refl h
    where
      go :
          (b : Bool) (made : Bundled)
          → str_eq version "" ≡ b
          → (if b then none else some made) ≡ none
          → version ≡ ""
      go true made e k = (eq_iff version "").0 e
      go false made e k = absurd (cc)

  bundled_of-some :
      (version : String) (bundled : Bundled)
      → bundled_of version ≡ some bundled
      → (bundled.version ≡ version)
        × (version ≢ "")
        × (bundled.entry_path ≡ concat ("launchwrapper-of-" ∷ version ∷ ".jar" ∷ []))
  bundled_of-some version bundled h =
      go (str_eq version "")
        (record {
          version = version;
          entry_path = concat ("launchwrapper-of-" ∷ version ∷ ".jar" ∷ []);
        })
        refl refl refl h
    where
      go :
          (b : Bool) (made : Bundled)
          → str_eq version "" ≡ b
          → made.version ≡ version
          → made.entry_path ≡ concat ("launchwrapper-of-" ∷ version ∷ ".jar" ∷ [])
          → (if b then none else some made) ≡ some bundled
          → (bundled.version ≡ version)
            × (version ≢ "")
            × (bundled.entry_path ≡ concat ("launchwrapper-of-" ∷ version ∷ ".jar" ∷ []))
      go true made e v p k = absurd (cc)
      go false made e v p k =
          let same = sym (some-injective made bundled k) in
          (
            ap (λ x. x.version) same ∙ v,
            ground (arith, eq_iff version ""),
            ap (λ x. x.entry_path) same ∙ p,
          )

  pub inspect-HasNoWrapper :
      (jar : String) (s s' : Launch W)
      → inspect_optifine_jar jars necessaries jar s ≡ (ok none, s')
      → HasNoWrapper jar
  unfolding inspect_optifine_jar
  inspect-HasNoWrapper jar s s' h =
      let r = jars.read_entry jar "launchwrapper-of.txt" s in
      (
        r.0,
        s,
        r.1,
        refl,
        go r.0 (pure_inj (bundled_in jars necessaries (or_null r.0)) none r.1 s' h).0,
      )
    where
      go : (o : Outcome (Option B)) → bundled_in jars necessaries (or_null o) ≡ none → NamesNone o
      go (throw e) k = tt
      go (ok none) k = tt
      go (ok (some contents)) k = bundled_of-none (trim (jars.decode contents)) k

  pub inspect-HasWrapper :
      (jar : String) (bundled : Bundled) (s s' : Launch W)
      → inspect_optifine_jar jars necessaries jar s ≡ (ok (some bundled), s')
      → HasWrapper jar bundled.version
        × (bundled.entry_path ≡ concat ("launchwrapper-of-" ∷ bundled.version ∷ ".jar" ∷ []))
  unfolding inspect_optifine_jar
  inspect-HasWrapper jar bundled s s' h =
      let r = jars.read_entry jar "launchwrapper-of.txt" s in
      go r.0 refl (pure_inj (bundled_in jars necessaries (or_null r.0)) (some bundled) r.1 s' h).0
    where
      go :
          (o : Outcome (Option B))
          → (jars.read_entry jar "launchwrapper-of.txt" s).0 ≡ o
          → bundled_in jars necessaries (or_null o) ≡ some bundled
          → HasWrapper jar bundled.version
            × (bundled.entry_path ≡ concat ("launchwrapper-of-" ∷ bundled.version ∷ ".jar" ∷ []))
      go (throw e) run k = absurd (cc)
      go (ok none) run k = absurd (cc)
      go (ok (some contents)) run k =
          let (same, filled, entry) = bundled_of-some (trim (jars.decode contents)) bundled k in
          (
            (
              contents,
              Returned-of_eq (jars.read_entry jar "launchwrapper-of.txt") (some contents) s run,
              sym same,
              λ e. filled (sym same ∙ e),
            ),
            entry ∙ ap (λ v. concat ("launchwrapper-of-" ∷ v ∷ ".jar" ∷ [])) (sym same),
          )

  abbrev pub wrapper_place : String → String
  wrapper_place version = file_join jars.platform.files.delimiter (
      necessaries.directories.libraries
      ∷ "net"
      ∷ "minecraft"
      ∷ "launchwrapper"
      ∷ concat ("of-" ∷ version ∷ [])
      ∷ [])

  -- The jar of LaunchWrapper lies at the path: it was there, or it was read from the jar of OptiFine
  -- and written.
  pub record IsExtracted (jar version path : String) : Type 0 where
    pub at_place :
        path
        ≡ file_join jars.platform.files.delimiter
            (wrapper_place version ∷ concat ("launchwrapper-of-" ∷ version ∷ ".jar" ∷ []) ∷ [])
    pub there :
        Returned (jars.platform.files.exists path) true
        ⊎ ((contents : B) × Returned
              (jars.read_entry jar (concat ("launchwrapper-of-" ∷ version ∷ ".jar" ∷ [])))
              (some contents)
            × Returned (jars.write_file path contents) tt)

  write_wrapper-written :
      (bundled : Bundled) (contents : B) (s : Launch W)
      → (write_wrapper jars necessaries bundled contents s).0 ≡ ok tt
      → Returned (jars.write_file (wrapper_path jars necessaries bundled) contents) tt
  unfolding write_wrapper
  write_wrapper-written bundled contents s h =
      let (unit, t, made, more) =
        >>=-eq-ok (jars.platform.make_directory true (wrapper_place bundled.version))
          (λ u. jars.write_file (wrapper_path jars necessaries bundled) contents)
          (ap (λ r. (r, (write_wrapper jars necessaries bundled contents s).1)) h) in
      (t, _, more)

  with_contents-IsExtracted :
      (jar path : String) (bundled : Bundled) (r : Outcome (Option B)) (s t s' : Launch W)
      → bundled.entry_path ≡ concat ("launchwrapper-of-" ∷ bundled.version ∷ ".jar" ∷ [])
      → jars.read_entry jar bundled.entry_path s ≡ (r, t)
      → with_contents jars necessaries bundled (or_null r) t ≡ (ok (some path), s')
      → IsExtracted jar bundled.version path
  with_contents-IsExtracted jar path bundled (throw e) s t s' entry run h = absurd (cc)
  with_contents-IsExtracted jar path bundled (ok none) s t s' entry run h = absurd (cc)
  with_contents-IsExtracted jar path bundled (ok (some contents)) s t s' entry run h =
      let w = write_wrapper jars necessaries bundled contents t in
      go w.0 refl
        (pure_inj (or_failed_write jars necessaries (wrapper_path jars necessaries bundled) w.0)
          (some path) w.1 s' h).0
    where
      go :
          (o : Outcome (Unit {0}))
          → (write_wrapper jars necessaries bundled contents t).0 ≡ o
          → or_failed_write jars necessaries (wrapper_path jars necessaries bundled) o ≡ some path
          → IsExtracted jar bundled.version path
      go (throw e) ran k = absurd (cc)
      go (ok done) ran k =
          subst (IsExtracted jar bundled.version)
            (some-injective (wrapper_path jars necessaries bundled) path k)
            (record {
              at_place = refl;
              there = inr (
                contents,
                subst (λ e. Returned (jars.read_entry jar e) (some contents)) entry (s, t, run),
                write_wrapper-written bundled contents t ran,
              );
            })

  pub extract-IsExtracted :
      (jar path : String) (bundled : Bundled) (s s' : Launch W)
      → bundled.entry_path ≡ concat ("launchwrapper-of-" ∷ bundled.version ∷ ".jar" ∷ [])
      → extract_launch_wrapper jars necessaries jar bundled s ≡ (ok (some path), s')
      → IsExtracted jar bundled.version path
  unfolding extract_launch_wrapper
  extract-IsExtracted jar path bundled s s' entry h =
      let (found, t, run, more) =
        >>=-eq-ok (jars.platform.files.exists (wrapper_path jars necessaries bundled))
          (unless_extracted jars necessaries jar bundled) h in
      go found t run more
    where
      go :
          (found : Bool) (t : Launch W)
          → jars.platform.files.exists (wrapper_path jars necessaries bundled) s ≡ (ok found, t)
          → unless_extracted jars necessaries jar bundled found t ≡ (ok (some path), s')
          → IsExtracted jar bundled.version path
      go true t run k =
          subst (IsExtracted jar bundled.version)
            (some-injective (wrapper_path jars necessaries bundled) path
              (pure_inj (some (wrapper_path jars necessaries bundled)) (some path) t s' k).0)
            (record { at_place = refl; there = inl (s, t, run) })
      go false t run k =
          let r = jars.read_entry jar bundled.entry_path t in
          with_contents-IsExtracted jar path bundled r.0 t r.1 s' entry refl k
