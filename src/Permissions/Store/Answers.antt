-- ===== src/Permissions/Store/Answers.antt =====
-- What an extension gets is what the user has answered, an answer is never changed by a request, and
-- nothing that has an answer is asked again.
use mathlib.Core.Path.{subst, subst₂}
use kaede.Prelude.{
  String, Bool, Option, none, some, List, [], ◌∷◌, map, default, ◌≡◌, refl, sym, ap, ◌∙◌, str_eq,
  eq_iff, if◌then◌else◌, Bool-cases, inl, inr,
}
use kaede.Prelude.Dictionary.{Dictionary, get, put, get-put}
use kaede.Outcome.{Outcome, ok, throw}
use kaede.Exec.{Exec, lift, ◌>>=◌, >>=-eq-ok, pure_inj}
use kaede.Permissions.Store.{
  Permissions, Asking, answer_in, answer_of, own_of, with_object, set_answer, Granted, grant,
  decide, request_permissions,
}

default-answer_in :
    (wanted : String) (o : Option (Dictionary Bool))
    → get wanted (default [] o) ≡ answer_in wanted o
default-answer_in wanted none = unfold get in refl
default-answer_in wanted (some own) = refl

-- An object for the extension changes no answer.
pub answer_of-with_object :
    (extension other permission : String) (permissions : Permissions)
    → answer_of other permission (with_object extension permissions)
      ≡ answer_of other permission permissions
answer_of-with_object extension other permission permissions =
    ap (answer_in permission) (get-put extension other (own_of extension permissions) permissions)
    ∙ elim (Bool-cases (str_eq extension other)) [
      | inl e ↦ rw e (
          default-answer_in permission (get extension permissions)
          ∙ ap (λ x. answer_of x permission permissions) ((eq_iff extension other).0 e))
      | inr e ↦ rw e refl
    ]

-- Setting an answer sets that one alone.
pub answer_of-set_answer :
    (extension permission other wanted : String) (answer : Bool) (permissions : Permissions)
    → answer_of other wanted (set_answer extension permission answer permissions) ≡ (
        if str_eq extension other
        then (if str_eq permission wanted then some answer else answer_of other wanted permissions)
        else answer_of other wanted permissions)
answer_of-set_answer extension permission other wanted answer permissions =
    ap (answer_in wanted)
      (get-put extension other (put permission answer (own_of extension permissions)) permissions)
    ∙ elim (Bool-cases (str_eq extension other)) [
      | inl e ↦ rw e (
          get-put permission wanted answer (own_of extension permissions)
          ∙ ap (λ o. if str_eq permission wanted then some answer else o)
              (default-answer_in wanted (get extension permissions)
                ∙ ap (λ x. answer_of x wanted permissions) ((eq_iff extension other).0 e)))
      | inr e ↦ rw e refl
    ]

-- Every answer of the first stays in the second.
abbrev pub KeepsAnswers : Permissions → Permissions → Type 0
KeepsAnswers before after =
    (extension permission : String) (answer : Bool)
    → answer_of extension permission before ≡ some answer
    → answer_of extension permission after ≡ some answer

none-ne-some : {b : Bool} → none ≡ some b → ⊥
none-ne-some e = cc

set_answer-KeepsAnswers :
    (extension permission : String) (answer : Bool) (permissions : Permissions)
    → answer_of extension permission permissions ≡ none
    → KeepsAnswers permissions
        (set_answer extension permission answer (with_object extension permissions))
set_answer-KeepsAnswers extension permission answer permissions n other wanted b h =
    answer_of-set_answer extension permission other wanted answer
      (with_object extension permissions)
    ∙ rw (answer_of-with_object extension other wanted permissions)
        (elim (Bool-cases (str_eq extension other)) [
          | inl e ↦ elim (Bool-cases (str_eq permission wanted)) [
            | inl p ↦ absurd (clash ((eq_iff extension other).0 e) ((eq_iff permission wanted).0 p))
            | inr p ↦ rw (e, p) h
          ]
          | inr e ↦ rw e h
        ])
  where
    clash : extension ≡ other → permission ≡ wanted → ⊥
    clash e p = none-ne-some (
        sym n
        ∙ ap (λ x. answer_of x permission permissions) e
        ∙ ap (λ x. answer_of other x permissions) p
        ∙ h)

set_answer-same :
    (extension permission : String) (answer : Bool) (permissions : Permissions)
    → answer_of extension permission (set_answer extension permission answer permissions)
      ≡ some answer
set_answer-same extension permission answer permissions =
    answer_of-set_answer extension permission extension permission answer permissions
    ∙ rw ((eq_iff extension extension).1 refl, (eq_iff permission permission).1 refl) refl

-- A chain of steps that leave the state leaves it.
still :
    {S A B : Type 0} (m : Exec S A) (next : A → Exec S B) (s : S)
    → (m s).1 ≡ s
    → ((a : A) → (next a s).1 ≡ s)
    → ((m >>= next) s).1 ≡ s
still {S} {A} {B} m next s h k = go (m s) refl
  where
    go : (p : Outcome A × S) → m s ≡ p → ((m >>= next) s).1 ≡ s
    go (ok a, t) e = rw (e, sym (ap (λ q. q.1) e) ∙ h) (k a)
    go (throw x, t) e = rw e (sym (ap (λ q. q.1) e) ∙ h)

module _ {U : Type 0} (ask : String → String → U → Bool × U) (extension : String) where
  -- What comes of one permission.
  record Decided (permission : String) (result : Granted) (before after : Asking U) : Type 0 where
    answer : Bool
    stored : answer_of extension permission after.0 ≡ some answer
    given : grant answer permission ≡ ok result
    keeps : KeepsAnswers before.0 after.0

  decide-Decided :
      (permission : String) (o : Option Bool) (result : Granted) (w w' : Asking U)
      → answer_of extension permission w.0 ≡ o
      → decide ask extension o permission w ≡ (ok result, w')
      → Decided permission result w w'
  decide-Decided permission (some b) result w w' e h =
      let same = ap (λ q. q.1.0) h in
      record {
        answer = b;
        stored = ap (answer_of extension permission) (sym same) ∙ e;
        given = ap (λ q. q.0) h;
        keeps = λ x p a k. ap (answer_of x p) (sym same) ∙ k;
      }
  decide-Decided permission none result w w' e h =
      let allowed = (ask permission extension w.1).0 in
      let (g, t, given, rest) = >>=-eq-ok {S = Asking U} (lift (grant allowed permission)) _ h in
      let (same, end) = pure_inj g result _ w' rest in
      let before = ap (λ q. q.1.0) given in
      let after : w'.0 ≡ set_answer extension permission allowed (with_object extension w.0) =
        sym (ap (λ q. q.0) end) ∙ ap (set_answer extension permission allowed) (sym before) in
      record {
        answer = allowed;
        stored =
            ap (answer_of extension permission) after
            ∙ set_answer-same extension permission allowed (with_object extension w.0);
        given = ap (λ q. q.0) given ∙ ap ok same;
        keeps = λ x p a k.
            ap (answer_of x p) after
            ∙ set_answer-KeepsAnswers extension permission allowed w.0 e x p a k;
      }

  -- Each entry is a string, has an answer, and its result is what the answer says.
  abbrev pub AreAnswered : Permissions → List (Option String) → List Granted → Type 0
  AreAnswered permissions [] [] = Unit
  AreAnswered permissions (some permission ∷ wanted) (result ∷ results) =
      ((answer : Bool) × (answer_of extension permission permissions ≡ some answer)
        × (grant answer permission ≡ ok result))
      × AreAnswered permissions wanted results
  AreAnswered permissions _ _ = ⊥

  -- If a request for permissions returns, every entry was a string, each has a stored answer of
  -- the user for this extension, its result is the capability where that answer is yes and false
  -- where it is no, and no answer that was stored before, of this or another extension, has
  -- changed. The answers of the user are arbitrary.
  pub request_permissions-AreAnswered :
      (wanted : List (Option String)) (results : List Granted) (w w' : Asking U)
      → request_permissions ask extension wanted w ≡ (ok results, w')
      → AreAnswered w'.0 wanted results × KeepsAnswers w.0 w'.0
  unfolding request_permissions
  request_permissions-AreAnswered [] results w w' h =
      let (same, end) = pure_inj [] results w w' h in
      (subst (AreAnswered w'.0 []) same tt, λ x p a k. ap (λ u. answer_of x p u.0) (sym end) ∙ k)
  request_permissions-AreAnswered (none ∷ wanted) results w w' h = absurd (cc)
  request_permissions-AreAnswered (some permission ∷ wanted) results w w' h =
      let (result, t, first, more) =
        >>=-eq-ok (decide ask extension (answer_of extension permission w.0) permission) _ h in
      let (rest, u, others, last) = >>=-eq-ok (request_permissions ask extension wanted) _ more in
      let (same, end) = pure_inj (result ∷ rest) results u w' last in
      let decided =
        decide-Decided permission (answer_of extension permission w.0) result w t refl first in
      let (answered, kept) = request_permissions-AreAnswered wanted rest t u others in
      subst₂ (λ r v. AreAnswered v.0 (some permission ∷ wanted) r × KeepsAnswers w.0 v.0) same end
        (
          (
            (
              decided.answer,
              kept extension permission decided.answer decided.stored,
              decided.given,
            ),
            answered,
          ),
          λ x p a k. kept x p a (decided.keeps x p a k),
        )

  -- The permissions all have an answer.
  abbrev pub AreStored : Permissions → List String → Type 0
  AreStored permissions [] = Unit
  AreStored permissions (permission ∷ wanted) =
      ((answer : Bool) × (answer_of extension permission permissions ≡ some answer))
      × AreStored permissions wanted

  -- If every permission of a request has a stored answer, the request asks the user nothing and
  -- changes no answer, also where it throws.
  pub request_permissions-of_AreStored :
      (wanted : List String) (w : Asking U)
      → AreStored w.0 wanted
      → (request_permissions ask extension (map some wanted) w).1 ≡ w
  unfolding request_permissions
  request_permissions-of_AreStored [] w h = refl
  request_permissions-of_AreStored (permission ∷ wanted) w h =
      still (decide ask extension (answer_of extension permission w.0) permission) _ w
        (ap (λ o. (decide ask extension o permission w).1) h.0.1)
        (λ result.
          still (request_permissions ask extension (map some wanted)) _ w
            (request_permissions-of_AreStored wanted w h.1) (λ rest. refl))
