-- ===== src/Launching/Handle/Downloaded.antt =====
-- The downloads of handle-launch.ts, when they all return true.
use kaede.Prelude.{ℕ, Bool, true, false, ◌&&◌, ◌≡◌, refl, ap}
use kaede.Outcome.{Outcome, ok, throw}
use kaede.Exec.{pure, lift, ◌>>=◌, >>=-eq-ok, pure_inj, Returned, Returned-of_eq}
use kaede.Statuses.{Launch}
use kaede.Meta.{FinalizedPatch, Necessaries}
use kaede.Fetching.Assets.{download_assets}
use kaede.Fetching.Client.{download_client}
use kaede.Fetching.Logging.{download_logging}
use kaede.Fetching.Libraries.{download_libraries}
use kaede.Launching.Natives.{native_archives, extract_native_archives}
use kaede.Launching.Handle.{Instance, Launcher, extract_if, libraries_and_natives, download_all}

and_inv :
    (a b c d : Bool) → (a && b && c && d) ≡ true → (a ≡ true) × (b ≡ true) × (c ≡ true) × (d ≡ true)
and_inv true true true true h = (refl, refl, refl, refl)
and_inv true true true false h = absurd (cc)
and_inv true true false d h = absurd (cc)
and_inv true false c d h = absurd (cc)
and_inv false b c d h = absurd (cc)

-- `download_all` after its four parts have come to their ends.
all_true-inv :
    {S : Type 0} (a c l n : Outcome Bool) (s s' : S)
    → (do
      assets ← lift a
      client ← lift c
      logging ← lift l
      libraries ← lift n
      pure (assets && client && logging && libraries))
        s
      ≡ (ok true, s')
    → (a ≡ ok true) × (c ≡ ok true) × (l ≡ ok true) × (n ≡ ok true)
all_true-inv (throw e) c l n s s' h = absurd (cc)
all_true-inv (ok a) (throw e) l n s s' h = absurd (cc)
all_true-inv (ok a) (ok c) (throw e) n s s' h = absurd (cc)
all_true-inv (ok a) (ok c) (ok l) (throw e) s s' h = absurd (cc)
all_true-inv (ok a) (ok c) (ok l) (ok n) s s' h =
    let (is_a, is_c, is_l, is_n) = and_inv a c l n (pure_inj (a && c && l && n) true s s' h).0 in
    (ap ok is_a, ap ok is_c, ap ok is_l, ap ok is_n)

module _ {W : Type 0} (launcher : Launcher W) (fuel : ℕ) (inst : Instance) where
  -- The four downloads returned true, and the archives of the natives were extracted.
  pub record IsDownloaded (necessaries : Necessaries) (patch : FinalizedPatch) : Type 0 where
    pub assets : Returned (download_assets launcher.platform necessaries patch) true
    pub client : Returned (download_client launcher.platform necessaries patch) true
    pub logging : Returned (download_logging launcher.platform necessaries patch) true
    pub libraries : Returned (download_libraries launcher.platform necessaries patch) true
    pub natives :
        Returned (extract_native_archives launcher.unzipping necessaries (native_archives patch)) tt

  libraries_and_natives-inv :
      (necessaries : Necessaries) (patch : FinalizedPatch)
      → Returned (libraries_and_natives launcher fuel inst necessaries patch) true
      → Returned (download_libraries launcher.platform necessaries patch) true
        × Returned
            (extract_native_archives launcher.unzipping necessaries (native_archives patch))
            tt
  unfolding libraries_and_natives
  libraries_and_natives-inv necessaries patch (s, s', h) =
      let (fetched, t, e, more) =
        >>=-eq-ok (download_libraries launcher.platform necessaries patch)
          (extract_if launcher fuel inst necessaries patch) h in
      go fetched t e more
    where
      go :
          (fetched : Bool) (t : Launch W)
          → download_libraries launcher.platform necessaries patch s ≡ (ok fetched, t)
          → extract_if launcher fuel inst necessaries patch fetched t ≡ (ok true, s')
          → Returned (download_libraries launcher.platform necessaries patch) true
            × Returned
                (extract_native_archives launcher.unzipping necessaries (native_archives patch))
                tt
      go false t e more = absurd (cc)
      go true t e more =
          let (unit, u, extracted, last) =
            >>=-eq-ok
              (extract_native_archives launcher.unzipping necessaries (native_archives patch)) _
              more in
          ((s, t, e), (t, u, extracted))

  pub download_all-IsDownloaded :
      (necessaries : Necessaries) (patch : FinalizedPatch) (s s' : Launch W)
      → download_all launcher fuel inst necessaries patch s ≡ (ok true, s')
      → IsDownloaded necessaries patch
  unfolding download_all
  download_all-IsDownloaded necessaries patch s s' h =
      let a = download_assets launcher.platform necessaries patch s in
      let c = download_client launcher.platform necessaries patch a.1 in
      let l = download_logging launcher.platform necessaries patch c.1 in
      let n = libraries_and_natives launcher fuel inst necessaries patch l.1 in
      let (is_a, is_c, is_l, is_n) = all_true-inv a.0 c.0 l.0 n.0 n.1 s' h in
      let (fetched, extracted) = libraries_and_natives-inv necessaries patch (
        Returned-of_eq (libraries_and_natives launcher fuel inst necessaries patch) true l.1
          is_n) in
      record {
        assets = Returned-of_eq (download_assets launcher.platform necessaries patch) true s is_a;
        client = Returned-of_eq (download_client launcher.platform necessaries patch) true a.1 is_c;
        logging =
            Returned-of_eq (download_logging launcher.platform necessaries patch) true c.1 is_l;
        libraries = fetched;
        natives = extracted;
      }
