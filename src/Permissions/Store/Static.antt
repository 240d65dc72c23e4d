-- ===== src/Permissions/Store/Static.antt =====
-- What the permissions in an extension's manifest do to the stored answers and to the object that the
-- extension gets.
use mathlib.Core.Path.{subst, subst₂}
use kaede.Prelude.{
  String, true, false, some, List, [], ◌∷◌, ◌≡◌, ◌≢◌, refl, sym, ap, ◌∙◌, str_eq, eq_iff,
  if◌then◌else◌, Bool-cases, inl, inr,
}
use kaede.Prelude.Dictionary.{Dictionary, get, put, get-put}
use kaede.Outcome.{ok}
use kaede.Exec.{lift, >>=-eq-ok, pure_inj}
use kaede.Permissions.Handle.{Capability, handle_permission}
use kaede.Permissions.Store.{
  Permissions, Asking, answer_of, with_object, set_answer, grant_each, grant_static_permissions,
}
use kaede.Permissions.Store.Answers.{answer_of-with_object, answer_of-set_answer}

-- The extension may use the permission, the object has its capability.
abbrev pub IsGiven : String → Permissions → Dictionary Capability → String → Type 0
IsGiven id permissions object permission =
    (answer_of id permission permissions ≡ some true)
    × ((capability : Capability) × (get permission object ≡ some capability)
        × (handle_permission permission ≡ ok capability))

abbrev pub AreGiven : String → Permissions → Dictionary Capability → List String → Type 0
AreGiven id permissions object [] = Unit
AreGiven id permissions object (permission ∷ wanted) =
    IsGiven id permissions object permission × AreGiven id permissions object wanted

-- What is given stays given, and the answers of other extensions stay.
record Kept (id : String) (before after : Permissions) (object object' : Dictionary Capability)
    : Type 0 where
  given :
      (permission : String)
      → IsGiven id before object permission
      → IsGiven id after object' permission
  others :
      (other permission : String)
      → other ≢ id
      → answer_of other permission after ≡ answer_of other permission before

step-Kept :
    (id permission : String) (capability : Capability) (permissions : Permissions)
    (object : Dictionary Capability)
    → handle_permission permission ≡ ok capability
    → Kept id permissions
        (set_answer id permission true permissions)
        object
        (put permission capability object)
step-Kept id permission capability permissions object h = record {
  given = λ p g. elim (Bool-cases (str_eq permission p)) [
    | inl e ↦ (
      set-same p ∙ rw e refl,
      (
        capability,
        get-put permission p capability object ∙ rw e refl,
        ap handle_permission (sym ((eq_iff permission p).0 e)) ∙ h,
      ),
    )
    | inr e ↦
        (set-same p ∙ rw e g.0, (g.1.0, get-put permission p capability object ∙ rw e g.1.1, g.1.2))
  ];
  others = λ other p n.
      answer_of-set_answer id permission other p true permissions ∙ rw (differ other n) refl;
}
  where
    set-same :
        (p : String)
        → answer_of id p (set_answer id permission true permissions)
          ≡ (if str_eq permission p then some true else answer_of id p permissions)
    set-same p =
        answer_of-set_answer id permission id p true permissions ∙ rw ((eq_iff id id).1 refl) refl

    differ : (other : String) → other ≢ id → str_eq id other ≡ false
    differ other n = elim (Bool-cases (str_eq id other)) [
      | inl e ↦ absurd (n (sym ((eq_iff id other).0 e)))
      | inr e ↦ e
    ]

step-IsGiven :
    (id permission : String) (capability : Capability) (permissions : Permissions)
    (object : Dictionary Capability)
    → handle_permission permission ≡ ok capability
    → IsGiven id
        (set_answer id permission true permissions)
        (put permission capability object)
        permission
step-IsGiven id permission capability permissions object h =
    let same = (eq_iff permission permission).1 refl in
    (
      answer_of-set_answer id permission id permission true permissions
          ∙ rw ((eq_iff id id).1 refl, same) refl,
      (capability, get-put permission permission capability object ∙ rw same refl, h),
    )

module _ {U : Type 0} (id : String) where
  grant_each-Kept :
      (wanted : List String) (object object' : Dictionary Capability) (w w' : Asking U)
      → grant_each id wanted object w ≡ (ok object', w')
      → Kept id w.0 w'.0 object object' × AreGiven id w'.0 object' wanted
  unfolding grant_each
  grant_each-Kept [] object object' w w' h =
      let (same, end) = pure_inj object object' w w' h in
      (
        subst₂ (λ o v. Kept id w.0 v.0 object o) same end
            (record { given = λ p g. g; others = λ other p n. refl }),
        tt,
      )
  grant_each-Kept (permission ∷ wanted) object object' w w' h =
      let (capability, t, first, more) =
        >>=-eq-ok {S = Asking U} (lift (handle_permission permission)) _ h in
      let handled : handle_permission permission ≡ ok capability = ap (λ q. q.0) first in
      let start : w ≡ t = ap (λ q. q.1) first in
      let (kept, given) =
        grant_each-Kept wanted (put permission capability object) object'
          (set_answer id permission true t.0, t.1) w' more in
      let here = step-Kept id permission capability t.0 object handled in
      (
        subst (λ v. Kept id v.0 w'.0 object object') (sym start)
            (record {
              given = λ p g. kept.given p (here.given p g);
              others = λ other p n. kept.others other p n ∙ here.others other p n;
            }),
        (kept.given permission (step-IsGiven id permission capability t.0 object handled), given),
      )

  -- If the permissions of an extension's manifest are granted without an exception, each of them
  -- has the stored answer yes for the extension and its capability in the object that the
  -- extension gets, and the answers of the other extensions have not changed.
  pub grant_static_permissions-AreGiven :
      (wanted : List String) (object : Dictionary Capability) (w w' : Asking U)
      → grant_static_permissions id (some wanted) w ≡ (ok object, w')
      → AreGiven id w'.0 object wanted
        × ((other permission : String)
            → other ≢ id
            → answer_of other permission w'.0 ≡ answer_of other permission w.0)
  unfolding grant_static_permissions
  grant_static_permissions-AreGiven wanted object w w' h =
      let (kept, given) = grant_each-Kept wanted [] object (with_object id w.0, w.1) w' h in
      (given, λ other p n. kept.others other p n ∙ answer_of-with_object id other p w.0)
