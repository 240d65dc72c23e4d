-- ===== src/FileManager/JsonFile/Cache.antt =====
-- What handleJsonFile returns, and the file that it leaves.
use mathlib.Core.Path.{subst}
use kaede.Prelude.{
  String, ℕ, ◌≤◌, Bool, true, false, Option, none, some, List, ◌∷◌, ◌≡◌, refl, sym, ap, ◌∙◌, ◌⊎◌,
  inl, inr, ltb, default, arith,
}
use kaede.Outcome.{Outcome, ok, throw}
use kaede.Exec.{Exec, >>=-eq-ok, pure_inj}
use kaede.FileManager.{file_join}
use kaede.FileManager.JsonFile.{
  Files, Invalidation, check_days_difference, overwrite, or_false, is_stale, renew, of_parsed,
  read_stored, of_staleness, read_existing, of_existence, read_or_renew, or_default, handle_at,
  handle_json_file,
}
use kaede.Json.{Json, null}

module _ {S : Type 0} (files : Files S) (path : String) (get : Exec S (Option Json))
    (invalidation : Option (Invalidation S)) where
  -- The stored file was read with no bound on its age, or within the bound.
  abbrev IsFresh : Type 0
  IsFresh =
      (invalidation ≡ none)
      ⊎ ((i : Invalidation S) × (modified : ℕ) × (today : ℕ) × (t : S) × (u : S) × (v : S)
          × (invalidation ≡ some i)
          × (files.last_modified path t ≡ (ok (some modified), u))
          × (files.now u ≡ (ok today, v))
          × (check_days_difference modified today ≤ i.days))

  -- Where a value comes from.
  pub data Origin (value : Option Json) : Type 0 where
    defaulted : (t u : S) → get t ≡ (ok value, u) → Origin value
    renewed :
        (i : Invalidation S) (t u : S)
        → invalidation ≡ some i
        → i.get_new_value t ≡ (ok value, u)
        → Origin value
    stored :
        (t u : S) (text : String) (json : Json)
        → files.read_text_file path t ≡ (ok text, u)
        → files.parse text ≡ some json
        → value ≡ some json
        → IsFresh
        → Origin value

  renew-eq-ok :
      (next : Exec S (Option Json)) (value : Option Json) (s s' : S)
      → renew files path get next s ≡ (ok value, s')
      → (u : S) × (next s ≡ (ok value, u))
  renew-eq-ok next value s s' h =
      let (got, u, first, more) = >>=-eq-ok next (overwrite files path) h in
      let (_, w, _, last) =
        >>=-eq-ok (files.write_text_file path (files.stringify (default null got))) _ more in
      (u, cc)

  -- The three ways to a value, each as far as the origin.
  of_default :
      (value : Option Json) (s s' : S) → renew files path get get s ≡ (ok value, s') → Origin value
  of_default value s s' h = let (u, from) = renew-eq-ok get value s s' h in defaulted s u from

  read_stored-Origin :
      (value : Option Json) (s s' : S)
      → IsFresh
      → read_stored files path get s ≡ (ok value, s')
      → Origin value
  unfolding read_stored
  read_stored-Origin value s s' fresh h =
      let (text, u, first, more) =
        >>=-eq-ok (files.read_text_file path) (λ t. of_parsed files path get (files.parse t)) h in
      go text u first (files.parse text) refl more
    where
      go :
          (text : String) (u : S)
          → files.read_text_file path s ≡ (ok text, u)
          → (parsed : Option Json) → files.parse text ≡ parsed
          → of_parsed files path get parsed u ≡ (ok value, s')
          → Origin value
      go text u first none e more = of_default value u s' more
      go text u first (some json) e more =
          stored s u text json first e (sym (pure_inj (some json) value u s' more).0) fresh

  of_staleness-Origin :
      (i : Invalidation S) (modified today : ℕ) (t u v s' : S) (stale : Bool) (value : Option Json)
      → invalidation ≡ some i
      → files.last_modified path t ≡ (ok (some modified), u)
      → files.now u ≡ (ok today, v)
      → ltb i.days (check_days_difference modified today) ≡ stale
      → of_staleness files path get i.get_new_value stale v ≡ (ok value, s')
      → Origin value
  of_staleness-Origin i modified today t u v s' true value known at_file at_clock e h =
      let (w, from) = renew-eq-ok i.get_new_value value v s' h in renewed i v w known from
  of_staleness-Origin i modified today t u v s' false value known at_file at_clock e h =
      read_stored-Origin value v s'
        (inr (i, modified, today, t, u, v, known, at_file, at_clock, ground arith)) h

  by_age :
      (i : Invalidation S) (modified : Option ℕ) (value : Option Json) (s u v s' : S) (stale : Bool)
      → invalidation ≡ some i
      → files.last_modified path s ≡ (ok modified, u)
      → is_stale files i.days modified u ≡ (ok stale, v)
      → of_staleness files path get i.get_new_value stale v ≡ (ok value, s')
      → Origin value
  unfolding is_stale
  by_age i none value s u v s' stale known first second last =
      let (same, _) = pure_inj true stale u v second in
      let (w, from) = renew-eq-ok i.get_new_value value v s' (
        subst (λ b. of_staleness files path get i.get_new_value b v ≡ (ok value, s')) (sym same)
          last) in
      renewed i v w known from
  by_age i (some modified) value s u v s' stale known first second last =
      let (today, w, clock, more) = >>=-eq-ok files.now _ second in
      let (same, at) =
        pure_inj (ltb i.days (check_days_difference modified today)) stale w v more in
      of_staleness-Origin i modified today s u v s' stale value known first
        (subst (λ x. files.now u ≡ (ok today, x)) at clock) same last

  read_existing-Origin :
      (o : Option (Invalidation S))
      → invalidation ≡ o
      → (value : Option Json) (s s' : S) → read_existing files path get o s ≡ (ok value, s')
      → Origin value
  unfolding read_existing
  read_existing-Origin none known value s s' h = read_stored-Origin value s s' (inl known) h
  read_existing-Origin (some i) known value s s' h =
      let (modified, u, first, more) = >>=-eq-ok (files.last_modified path) _ h in
      let (stale, v, second, last) = >>=-eq-ok (is_stale files i.days modified) _ more in
      by_age i modified value s u v s' stale known first second last

  of_existence-Origin :
      (found : Bool) (value : Option Json) (s s' : S)
      → of_existence files path get invalidation found s ≡ (ok value, s')
      → Origin value
  of_existence-Origin false value s s' h = of_default value s s' h
  of_existence-Origin true value s s' h = read_existing-Origin invalidation refl value s s' h

  or_default-Origin :
      (tried : Outcome (Option Json)) (value : Option Json) (s t s' : S)
      → read_or_renew files path get invalidation s ≡ (tried, t)
      → or_default files path get tried t ≡ (ok value, s')
      → Origin value
  unfolding read_or_renew
  or_default-Origin (ok v) value s t s' ran h =
      let found = files.exists path s in
      of_existence-Origin (or_false found.0) value found.1 t
        (ran ∙ ap (λ (o : Option Json). (ok o, t)) (pure_inj v value t s' h).0)
  or_default-Origin (throw e) value s t s' ran h = defaulted t s' h

not_ltb_zero : (n : ℕ) → ltb n 0 ≡ false
not_ltb_zero n = ground arith

module _ {S : Type 0} (files : Files S) where
  -- If handleJsonFile returns a value, the value is what getDefaultValue returned, or what
  -- getNewValue of the invalidation returned, or the parsed text of the file, where there was no
  -- invalidation or the file was changed at most its number of whole days before or after the
  -- time of the call.
  pub handle_json_file-Origin :
      (base_directory : String) (path : List String) (get : Exec S (Option Json))
      (invalidation : Option (Invalidation S)) (value : Option Json) (s s' : S)
      → handle_json_file files base_directory path get invalidation s ≡ (ok value, s')
      → Origin files (file_join files.delimiter (base_directory ∷ path)) get invalidation value
  unfolding handle_json_file
  handle_json_file-Origin base_directory path get invalidation value s s' h =
      let place = file_join files.delimiter (base_directory ∷ path) in
      let tried = read_or_renew files place get invalidation s in
      or_default-Origin files place get invalidation tried.0 value s tried.1 s' refl h

  -- The file holds the text, and was changed less than a day ago.
  pub record Holds (path text : String) (s : S) : Type 0 where
    pub found : files.exists path s ≡ (ok true, s)
    pub content : files.read_text_file path s ≡ (ok text, s)
    pub modified : ℕ
    pub today : ℕ
    pub dated : files.last_modified path s ≡ (ok (some modified), s)
    pub clock : files.now s ≡ (ok today, s)
    pub young : check_days_difference modified today ≡ 0

  -- A text that was written is read back.
  pub record IsLawful : Type 0 where
    pub written :
        (path text : String) (s s' : S)
        → files.write_text_file path text s ≡ (ok tt, s')
        → Holds path text s'

  module _ (json : Json) (parse-stringify : files.parse (files.stringify json) ≡ some json) where
    read_existing-of_Holds :
        (path : String) (get : Exec S (Option Json)) (invalidation : Option (Invalidation S))
        (s : S)
        → Holds path (files.stringify json) s
        → read_existing files path get invalidation s ≡ (ok (some json), s)
    unfolding read_existing read_stored is_stale
    read_existing-of_Holds path get none s holds = rw (holds.content, parse-stringify)
    read_existing-of_Holds path get (some i) s holds =
        rw (
          holds.dated,
          holds.clock,
          holds.young,
          not_ltb_zero i.days,
          holds.content,
          parse-stringify,
        )

  -- On a file system that keeps what is written, if a file is missing, its default value is got
  -- and written, and the text of that value parses to it (null for undefined), then
  -- handleJsonFile returns the value, and a second call returns it from the file, whatever its
  -- own default and invalidation are, and changes nothing.
  pub handle_json_file_twice :
      (base_directory : String) (path : List String) (get next : Exec S (Option Json))
      (invalidation later : Option (Invalidation S)) (value : Option Json) (s t u v : S)
      → IsLawful
      → files.parse (files.stringify (default null value)) ≡ some (default null value)
      → files.exists (file_join files.delimiter (base_directory ∷ path)) s ≡ (ok false, t)
      → get t ≡ (ok value, u)
      → files.write_text_file
          (file_join files.delimiter (base_directory ∷ path))
          (files.stringify (default null value))
          u
        ≡ (ok tt, v)
      → (handle_json_file files base_directory path get invalidation s ≡ (ok value, v))
        × (handle_json_file files base_directory path next later v
            ≡ (ok (some (default null value)), v))
  unfolding handle_json_file handle_at read_or_renew
  handle_json_file_twice base_directory path get next invalidation later value s t u v lawful parsed
        missing got wrote =
      let holds = lawful.written _ _ u v wrote in
      (
        rw (missing, got, wrote) refl,
        rw (holds.found, read_existing-of_Holds (default null value) parsed _ next later v holds)
            refl,
      )
