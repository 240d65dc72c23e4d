-- ===== src/OptiFine/Patch/Laws.antt =====
-- resolve-optifine-patch.ts: what the patch is made of.
use mathlib.Core.Option.{some-injective}
use mathlib.Core.Path.{subst}
use kaede.Prelude.{String, ℕ, Option, [], ◌∷◌, none, some, ◌≡◌, refl, sym}
use kaede.Outcome.{Outcome, ok, throw}
use kaede.Exec.{pure, >>=-eq-ok, pure_inj, Returned, Returned-of_eq}
use kaede.Json
use kaede.Json.{Json, text, number, array, object, Items, nil, cons, Fields, end, field, read}
use kaede.Statuses.{Launch}
use kaede.Meta.{Necessaries}
use kaede.OptiFine.Version.{ParsedVersion, parse_optifine_version}
use kaede.OptiFine.Version.Laws.{IsVersion, print, parse_optifine_version_iff}
use kaede.Prelude.Text.{concat}
use kaede.OptiFine.Patch.Content.{
  IsLibrary, HasFields, patch_of-HasFields, library_fields, described-IsLibrary, local-IsLibrary,
}
use kaede.OptiFine.Jar.Laws.{
  IsJarOf, download_optifine_jar-IsJarOf, HasNoWrapper, HasWrapper, inspect-HasNoWrapper,
  inspect-HasWrapper, IsExtracted, extract-IsExtracted,
}
use kaede.OptiFine.Jar.{
  Jars, artifact_name, download_url, Bundled, download_optifine_jar, inspect_optifine_jar,
  extract_launch_wrapper,
}
use kaede.OptiFine.Patch.{
  Wrapper, wrapper_name, described, both_read, local_hint, vanilla_wrapper, patch_of,
  describe_artifact, with_wrapper, described_wrapper, wrapper_of, with_optifine,
  generate_optifine_patch, with_extracted, with_bundled, with_jar, with_parsed,
  resolve_optifine_patch,
}

module _ {W B : Type 0} (jars : Jars W B) (necessaries : Necessaries) where
  -- A hash and a size that were read of the file.
  pub record IsRead (path hash : String) (size : ℕ) : Type 0 where
    pub hashed : Returned (jars.hash_file path) hash
    pub measured : Returned (jars.size_of path) size

  -- The fields of LaunchWrapper's library for a jar of OptiFine: the one of the game, with no
  -- download, where the jar names no version; or the one of that version, a local one with no
  -- address, with the hash and the size that were read of the extracted file.
  pub data IsWrapperOf (jar : String) (fields : Fields) : Type 0 where
    vanilla :
        HasNoWrapper jars necessaries jar
        → read "name" fields ≡ some (text "net.minecraft:launchwrapper:1.12")
        → read "downloads" fields ≡ none
        → IsWrapperOf jar fields
    extracted :
        (version path hash : String) (size : ℕ)
        → HasWrapper jars necessaries jar version
        → IsExtracted jars necessaries jar version path
        → IsRead path hash size
        → IsLibrary fields (concat ("net.minecraft:launchwrapper:of-" ∷ version ∷ [])) "" hash size
        → read "MMC-hint" fields ≡ some (text "local")
        → IsWrapperOf jar fields

  pub record IsMadeFor (version : String) (patch : Json) : Type 0 where
    pub parsed : ParsedVersion
    pub is_version : IsVersion parsed
    pub printed : version ≡ print parsed
    pub jar : String
    pub is_jar : IsJarOf jars necessaries parsed version jar
    pub hash : String
    pub size : ℕ
    pub is_read : IsRead jar hash size
    pub wrapper : Fields
    pub is_wrapper : IsWrapperOf jar wrapper
    pub optifine : Fields
    pub is_optifine :
        IsLibrary optifine
          (concat ("optifine:OptiFine:" ∷ version ∷ []))
          (concat (
            "https://bmclapi2.bangbang93.com/" ∷ "optifine/" ∷ parsed.minecraft_version ∷ "/"
            ∷ parsed.type ∷ "/" ∷ parsed.patch ∷ []))
          hash
          size
    pub has_fields : HasFields version parsed.minecraft_version wrapper optifine patch

  both_read-inv :
      (h : Outcome String) (n : Outcome ℕ) (hash : String) (size : ℕ)
      → both_read h n ≡ some (hash, size)
      → (h ≡ ok hash) × (n ≡ ok size)
  both_read-inv (ok h) (ok n) hash size e = (cc, cc)
  both_read-inv (ok h) (throw x) hash size e = absurd (cc)
  both_read-inv (throw x) n hash size e = absurd (cc)

  describe_artifact-IsRead :
      (path hash : String) (size : ℕ) (s s' : Launch W)
      → describe_artifact jars necessaries path s ≡ (ok (some (hash, size)), s')
      → IsRead path hash size
  unfolding describe_artifact
  describe_artifact-IsRead path hash size s s' h =
      let r = jars.hash_file path s in
      let n = jars.size_of path r.1 in
      let (e, e') =
        both_read-inv r.0 n.0 hash size
          (pure_inj (both_read r.0 n.0) (some (hash, size)) n.1 s' h).0 in
      record {
        hashed = Returned-of_eq (jars.hash_file path) hash s e;
        measured = Returned-of_eq (jars.size_of path) size r.1 e';
      }

  module _ (version : String) (parsed : ParsedVersion) (is_version : IsVersion parsed)
      (printed : version ≡ print parsed) (jar : String)
      (is_jar : IsJarOf jars necessaries parsed version jar) (patch : Json) where
    generate-IsMadeFor :
        (wrapper : Option Wrapper)
        → ((library : Json)
            → Returned (wrapper_of jars necessaries wrapper) (some library)
            → (fields : Fields) × (library ≡ object fields) × IsWrapperOf jar fields)
        → (s s' : Launch W)
        → generate_optifine_patch jars necessaries version parsed.minecraft_version jar
            (download_url parsed)
            wrapper
            s
          ≡ (ok (some patch), s')
        → IsMadeFor version patch
    unfolding generate_optifine_patch
    generate-IsMadeFor wrapper given s s' h =
        let (read, t, ran, more) =
          >>=-eq-ok (describe_artifact jars necessaries jar)
            (with_optifine jars necessaries version parsed.minecraft_version (download_url parsed)
              wrapper)
            h in
        of_read read t ran more
      where
        of_library :
            (hash : String) (size : ℕ) (library : Option Json) (t u : Launch W)
            → IsRead jar hash size
            → wrapper_of jars necessaries wrapper t ≡ (ok library, u)
            → with_wrapper jars necessaries version parsed.minecraft_version
                (described (artifact_name version) (download_url parsed) hash size end)
                library
                u
              ≡ (ok (some patch), s')
            → IsMadeFor version patch
        of_library hash size none t u read ran k = absurd (cc)
        of_library hash size (some library) t u is_read ran k =
            let (fields, is_object, is_wrapper) = given library (t, u, ran) in
            let made = some-injective _ patch (pure_inj _ (some patch) u s' k).0 in
            subst (IsMadeFor version) made (record {
              parsed = parsed;
              is_version = is_version;
              printed = printed;
              jar = jar;
              is_jar = is_jar;
              hash = hash;
              size = size;
              is_read = is_read;
              wrapper = fields;
              is_wrapper = is_wrapper;
              optifine =
                  library_fields
                    (described (artifact_name version) (download_url parsed) hash size end);
              is_optifine =
                  described-IsLibrary (artifact_name version) (download_url parsed) hash size;
              has_fields =
                  subst
                    (λ l.
                      HasFields version parsed.minecraft_version fields
                        (library_fields
                          (described (artifact_name version) (download_url parsed) hash size end))
                        (patch_of version parsed.minecraft_version l
                          (described (artifact_name version) (download_url parsed) hash size end)))
                    (sym is_object) (patch_of-HasFields version parsed.minecraft_version fields _);
            })

        of_read :
            (read : Option (String × ℕ)) (t : Launch W)
            → describe_artifact jars necessaries jar s ≡ (ok read, t)
            → with_optifine jars necessaries version parsed.minecraft_version
                (download_url parsed)
                wrapper
                read
                t
              ≡ (ok (some patch), s')
            → IsMadeFor version patch
        of_read none t ran k = absurd (cc)
        of_read (some (hash, size)) t ran k =
            let (library, u, got, last) = >>=-eq-ok (wrapper_of jars necessaries wrapper) _ k in
            of_library hash size library t u (describe_artifact-IsRead jar hash size s t ran) got
              last

    described-IsWrapperOf :
        (bundled : Bundled) (path : String)
        → HasWrapper jars necessaries jar bundled.version
        → IsExtracted jars necessaries jar bundled.version path
        → (library : Json)
        → Returned (wrapper_of jars necessaries (some (wrapper_name bundled, path))) (some library)
        → (fields : Fields) × (library ≡ object fields) × IsWrapperOf jar fields
    described-IsWrapperOf bundled path named got library (s, s', h) =
        let (read, t, ran, more) =
          >>=-eq-ok (describe_artifact jars necessaries path)
            (λ r. pure (described_wrapper jars necessaries (wrapper_name bundled, path) r)) h in
        of_read read t ran more
      where
        of_read :
            (read : Option (String × ℕ)) (t : Launch W)
            → describe_artifact jars necessaries path s ≡ (ok read, t)
            → pure (described_wrapper jars necessaries (wrapper_name bundled, path) read) t
              ≡ (ok (some library), s')
            → (fields : Fields) × (library ≡ object fields) × IsWrapperOf jar fields
        of_read none t ran k = absurd (cc)
        of_read (some (hash, size)) t ran k = (
          library_fields (described (wrapper_name bundled) "" hash size local_hint),
          sym (some-injective _ library (pure_inj _ (some library) t s' k).0),
          extracted bundled.version path hash size named got
              (describe_artifact-IsRead path hash size s t ran)
              (local-IsLibrary (wrapper_name bundled) "" hash size) (unfold Json.read in refl),
        )

    vanilla-IsWrapperOf :
        HasNoWrapper jars necessaries jar
        → (library : Json) → Returned (wrapper_of jars necessaries none) (some library)
        → (fields : Fields) × (library ≡ object fields) × IsWrapperOf jar fields
    vanilla-IsWrapperOf unnamed library (t, u, e) = (
      library_fields vanilla_wrapper,
      sym (
          some-injective vanilla_wrapper library
            (pure_inj (some vanilla_wrapper) (some library) t u e).0),
      vanilla unnamed (unfold Json.read in refl) (unfold Json.read in refl),
    )

    with_bundled-IsMadeFor :
        (bundled : Option Bundled) (r s s' : Launch W)
        → inspect_optifine_jar jars necessaries jar r ≡ (ok bundled, s)
        → with_bundled jars necessaries version parsed jar bundled s ≡ (ok (some patch), s')
        → IsMadeFor version patch
    with_bundled-IsMadeFor none r s s' run h =
        generate-IsMadeFor none
          (vanilla-IsWrapperOf (inspect-HasNoWrapper jars necessaries jar r s run)) s s' h
    with_bundled-IsMadeFor (some bundled) r s s' run h =
        let (named, entry) = inspect-HasWrapper jars necessaries jar bundled r s run in
        let (got, t, ran, more) =
          >>=-eq-ok (extract_launch_wrapper jars necessaries jar bundled)
            (with_extracted jars necessaries version parsed jar bundled) h in
        of_extracted named entry got t ran more
      where
        of_extracted :
            HasWrapper jars necessaries jar bundled.version
            → bundled.entry_path ≡ concat ("launchwrapper-of-" ∷ bundled.version ∷ ".jar" ∷ [])
            → (got : Option String) (t : Launch W)
            → extract_launch_wrapper jars necessaries jar bundled s ≡ (ok got, t)
            → with_extracted jars necessaries version parsed jar bundled got t
              ≡ (ok (some patch), s')
            → IsMadeFor version patch
        of_extracted named entry none t ran k = absurd (cc)
        of_extracted named entry (some path) t ran k =
            generate-IsMadeFor (some (wrapper_name bundled, path))
              (described-IsWrapperOf bundled path named
                (extract-IsExtracted jars necessaries jar path bundled s t entry ran))
              t s' k

  with_jar-IsMadeFor :
      (version : String) (parsed : ParsedVersion) (patch : Json)
      → IsVersion parsed
      → version ≡ print parsed
      → (jar : Option String) (r s s' : Launch W)
      → download_optifine_jar jars necessaries parsed version r ≡ (ok jar, s)
      → with_jar jars necessaries version parsed jar s ≡ (ok (some patch), s')
      → IsMadeFor version patch
  with_jar-IsMadeFor version parsed patch is_version printed none r s s' run h = absurd (cc)
  with_jar-IsMadeFor version parsed patch is_version printed (some jar) r s s' run h =
      let (bundled, t, ran, more) =
        >>=-eq-ok (inspect_optifine_jar jars necessaries jar)
          (with_bundled jars necessaries version parsed jar) h in
      with_bundled-IsMadeFor version parsed is_version printed jar
        (download_optifine_jar-IsJarOf jars necessaries parsed version jar r s run) patch bundled s
        t s' ran more

  -- If resolveOptiFinePatch gives a patch for a version, the version is made of three parts; the
  -- jar at the place of the version's coordinate was there, or was downloaded without a failure
  -- from the address of these parts; the patch has this version, the main class and the tweaker
  -- of OptiFine, requires the version of Minecraft that is the first part, and has two libraries.
  -- The first is LaunchWrapper: that of the game where the jar names none, or the named one, a
  -- local library with the hash and the size of the file that was there or was taken out of the
  -- jar. The second is OptiFine, with the address, and the hash and the size that were read of
  -- the jar.
  pub resolve_optifine_patch-IsMadeFor :
      (version : String) (patch : Json) (s s' : Launch W)
      → resolve_optifine_patch jars necessaries version s ≡ (ok (some patch), s')
      → IsMadeFor version patch
  unfolding resolve_optifine_patch
  resolve_optifine_patch-IsMadeFor version patch s s' h =
      of_parsed (parse_optifine_version version) refl h
    where
      of_parsed :
          (o : Option ParsedVersion)
          → parse_optifine_version version ≡ o
          → with_parsed jars necessaries version o s ≡ (ok (some patch), s')
          → IsMadeFor version patch
      of_parsed none e k = absurd (cc)
      of_parsed (some parsed) e k =
          let (is_version, printed) = (parse_optifine_version_iff version parsed).0 e in
          let (jar, t, ran, more) =
            >>=-eq-ok (download_optifine_jar jars necessaries parsed version)
              (with_jar jars necessaries version parsed) k in
          with_jar-IsMadeFor version parsed patch is_version printed jar s t s' ran more
