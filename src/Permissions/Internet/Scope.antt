-- ===== src/Permissions/Internet/Scope.antt =====
-- The requests that atomic/internet.ts lets pass: those of the scope's origin whose folders begin with
-- the folders of the scope.
use Prim.Native.String.{[] as nil, ◌∷◌ as cons, ◌++◌ as ◌⊕◌}
use text.Mathlib.Text.{starts_with}
use text.Mathlib.TextEquality.{starts_with_iff, Char-path}
use mathlib.Core.Path.{subst}
use mathlib.Core.Option.{some-injective}
use text.Mathlib.TextBridge.{IsPrefix}
use text.Mathlib.TextLemmas
use text.Mathlib.TextLemmas.{nil-append, cons-append}
use kaede.Prelude.{
  init, init-append, code, Char, String, Bool, true, false, ◌||◌, not, Option, none, some, List, [],
  ◌∷◌, ◌++◌, ◌≡◌, ◌≢◌, ◌↔◌, ◌⊎◌, refl, sym, ap, ◌∙◌, arith, str_eq, eq_iff, if◌then◌else◌,
  Bool-cases, inl, inr, ◌==◌,
}
use kaede.Prelude.Text.{split, join, ends_with, onto_head}
use kaede.Prelude.Text.Splitting.{split-ne-nil, join-split}
use kaede.Outcome.{Error, Outcome, ok, throw, refused, >>=-eq-ok}
use kaede.Permissions.Internet.{
  Url, scope_path, allowed_path, check_scope, guard, Body, Request, is_valid_body, content_types,
  is_listed, validate_request_data, GivenType, omitted, not_a_text, type_text, or_plain,
  post_request,
}

onto_head-append :
    (e : Char) (ps qs : List String) → ps ≢ [] → onto_head e (ps ++ qs) ≡ onto_head e ps ++ qs
onto_head-append e [] qs h = absurd (h refl)
onto_head-append e (p ∷ ps) qs h = refl

-- The pieces of a text with the separator in it.
split-append_any :
    (d : Char) (s t : String) → split (code d) (s ⊕ cons d t) ≡ split (code d) s ++ split (code d) t
unfolding split
split-append_any d nil t = rw nil-append (ground arith)
split-append_any d (cons e s) t = rw cons-append (elim (Bool-cases (code e == code d)) [
  | inl h ↦ rw h (ap (λ ps. "" ∷ ps) (split-append_any d s t))
  | inr h ↦ rw h (
      ap (onto_head e) (split-append_any d s t)
      ∙ onto_head-append e (split (code d) s) (split (code d) t) (split-ne-nil (code d) s))
])

join-append :
    (sep : String) (xs ys : List String)
    → xs ≢ []
    → ys ≢ []
    → join sep (xs ++ ys) ≡ join sep xs ⊕ (sep ⊕ join sep ys)
unfolding join
join-append sep [] ys hx hy = absurd (hx refl)
join-append sep (x ∷ []) [] hx hy = absurd (hy refl)
join-append sep (x ∷ []) (y ∷ ys) hx hy = refl
join-append sep (x ∷ z ∷ xs) ys hx hy =
    ap (λ t. x ⊕ (sep ⊕ t)) (join-append sep (z ∷ xs) ys (cc) hy)
    ∙ sym (
        TextLemmas.append_assoc x (sep ⊕ join sep (z ∷ xs)) (sep ⊕ join sep ys)
        ∙ ap (λ t. x ⊕ t) (TextLemmas.append_assoc sep (join sep (z ∷ xs)) (sep ⊕ join sep ys)))

ends_with-shape : (s : String) → ends_with s 47 ≡ true → (b : String) × (s ≡ b ⊕ "/")
unfolding ends_with
ends_with-shape nil h = absurd (cc)
ends_with-shape (cons d nil) h =
    ("", ap (λ c. cons c nil) (Char-path d "/" (ground arith)) ∙ sym (nil-append "/"))
ends_with-shape (cons d (cons e s)) h =
    let (b, shape) = ends_with-shape (cons e s) h in
    (cons d b, ap (λ t. cons d t) shape ∙ sym (cons-append d b "/"))

-- The folders of a scope's path.
abbrev pub folders : String → List String
folders pathname = if ends_with pathname 47 then init (split 47 pathname) else split 47 pathname

split-slash : (b : String) → split 47 (b ⊕ "/") ≡ split 47 b ++ "" ∷ []
split-slash b = split-append_any "/" b "" ∙ (unfold split in refl)

scope_path-shape : (p : String) → (b : String) × (scope_path p ≡ b ⊕ "/") × (folders p ≡ split 47 b)
scope_path-shape p = elim (Bool-cases (ends_with p 47)) [
  | inl e ↦
      let (b, shape) = ends_with-shape p e in
      (
        b,
        rw e shape,
        rw e (
            ap (λ t. init (split 47 t)) shape
            ∙ ap init (split-slash b)
            ∙ init-append (split 47 b) ""),
      )
  | inr e ↦ (p, rw e (ap (λ t. p ⊕ t) (TextLemmas.append-nil "/")), rw e refl)
]

-- A path that begins with the folders of a text, and goes on.
abbrev pub Continues : List String → String → Type 0
Continues front path = (more : List String) × (more ≢ []) × (split 47 path ≡ front ++ more)

starts_with_iff-Continues :
    (path b : String) → (starts_with path (b ⊕ "/") ≡ true) ↔ Continues (split 47 b) path
starts_with_iff-Continues path b = (
  (λ e. from ((starts_with_iff path (b ⊕ "/")).0 e)),
  λ c. (starts_with_iff path (b ⊕ "/")).1 (to c),
)
  where
    from : IsPrefix (b ⊕ "/") path → Continues (split 47 b) path
    from (u, e) = (
      split 47 u,
      split-ne-nil 47 u,
      ap (split 47) (
            sym e
            ∙ TextLemmas.append_assoc b "/" u
            ∙ ap (λ t. b ⊕ t) (cons-append _ nil u ∙ ap (λ t. cons "/" t) (nil-append u)))
          ∙ split-append_any "/" b u,
    )

    to : Continues (split 47 b) path → IsPrefix (b ⊕ "/") path
    to (more, n, e) = (
      join "/" more,
      TextLemmas.append_assoc b "/" (join "/" more)
          ∙ ap (λ t. t ⊕ ("/" ⊕ join "/" more)) (sym (join-split "/" b))
          ∙ sym (join-append "/" (split 47 b) more (split-ne-nil 47 b) n)
          ∙ ap (join "/") (sym e)
          ∙ join-split "/" path,
    )

-- The path is the scope's, or lies in its folder.
abbrev pub IsBelow : Url → Url → Type 0
IsBelow request scope =
    (request.pathname ≡ scope.pathname) ⊎ Continues (folders scope.pathname) request.pathname

allowed_path_iff :
    (request scope : Url) → (allowed_path request scope ≡ true) ↔ IsBelow request scope
allowed_path_iff request scope =
    let (b, shape, same) = scope_path-shape scope.pathname in
    let below = starts_with_iff-Continues request.pathname b in
    (
      (λ h. elim (Bool-cases (str_eq request.pathname scope.pathname)) [
        | inl e ↦ inl ((eq_iff request.pathname scope.pathname).0 e)
        | inr e ↦ inr (
            subst (λ fs. Continues fs request.pathname) (sym same)
              (below.0 (ap (starts_with request.pathname) (sym shape) ∙ rest e h)))
      ]),
      λ h. elim h [
        | inl e ↦ rw ((eq_iff request.pathname scope.pathname).1 e) refl
        | inr c ↦ or-true (str_eq request.pathname scope.pathname) (
            ap (starts_with request.pathname) shape
            ∙ below.1 (subst (λ fs. Continues fs request.pathname) same c))
      ],
    )
  where
    rest :
        str_eq request.pathname scope.pathname ≡ false
        → allowed_path request scope ≡ true
        → starts_with request.pathname (scope_path scope.pathname) ≡ true
    rest e h = rw e at h

    or-true : {y : Bool} (x : Bool) → y ≡ true → (x || y) ≡ true
    or-true true e = refl
    or-true false e = e

test_iff :
    (e : Error) (x y : Bool)
    → ◌≡◌ {A = Outcome (Unit {0})} (if not x || not y then throw e else ok tt) (ok tt)
      ↔ ((x ≡ true) × (y ≡ true))
test_iff e true true = (λ h. (refl, refl), λ h. refl)
test_iff e true false = ((λ h. absurd (cc)), λ h. absurd (cc))
test_iff e false y = ((λ h. absurd (cc)), λ h. absurd (cc))

check_scope_iff :
    (input : String) (request scope : Url)
    → (check_scope input request scope ≡ ok tt)
      ↔ ((str_eq request.origin scope.origin ≡ true) × (allowed_path request scope ≡ true))
check_scope_iff input request scope =
    test_iff (refused input) (str_eq request.origin scope.origin) (allowed_path request scope)

-- If the platform parses the address of a request and the scope's, the guard lets the request
-- pass exactly if both have the same origin and the path of the request is the scope's or, split
-- at the slashes, begins with the folders of the scope and goes on. A folder whose name only
-- begins like the scope's is not let through.
pub guard_iff :
    (parse_url : String → Option Url) (input allowed : String) (request scope : Url)
    → parse_url input ≡ some request
    → parse_url allowed ≡ some scope
    → (guard parse_url (some input) allowed ≡ ok tt)
      ↔ ((request.origin ≡ scope.origin) × IsBelow request scope)
unfolding guard
guard_iff parse_url input allowed request scope hr hs =
    let checked = check_scope_iff input request scope in
    let path = allowed_path_iff request scope in
    let origin = eq_iff request.origin scope.origin in
    rw (hr, hs)
      (
        (λ h. (origin.0 (checked.0 h).0, path.0 (checked.0 h).1)),
        λ h. checked.1 (origin.1 h.0, path.1 h.1),
      )

valid-data :
    (body : Body) (content_type : Option String) (u : Unit {0})
    → validate_request_data body content_type ≡ ok u
    → (is_valid_body body ≡ true)
      × ((type : String) × (content_type ≡ some type) × (is_listed type content_types ≡ true))
unfolding validate_request_data
valid-data body none u h = absurd (ground arith)
valid-data body (some type) u h = go (is_valid_body body) (is_listed type content_types) refl refl h
  where
    go :
        (x y : Bool)
        → is_valid_body body ≡ x
        → is_listed type content_types ≡ y
        → validate_request_data body (some type) ≡ ok u
        → (is_valid_body body ≡ true)
          × ((t : String) × (some type ≡ some t) × (is_listed t content_types ≡ true))
    go true true ex ey h = (ex, (type, refl, ey))
    go true false ex ey h = absurd (ground arith)
    go false y ex ey h = absurd (ground arith)

-- The content type that an argument stands for.
pub data HasType : GivenType → String → Type 0 where
  by_default : HasType omitted "text/plain"
  as_given : (content_type : String) → HasType (type_text content_type) content_type

-- What a request that is sent satisfies.
pub record IsAllowed (parse_url : String → Option Url) (argument input : String) (body : Body)
    (given : GivenType) (sent : Request) : Type 0 where
  pub url : sent.url ≡ input
  pub method : sent.method ≡ "POST"
  pub passed : guard parse_url (some input) argument ≡ ok tt
  pub same_body : sent.body ≡ body
  pub valid_body : is_valid_body body ≡ true
  pub type : String
  pub has_type : HasType given type
  pub sent_type : sent.content_type ≡ some type
  pub listed : is_listed type content_types ≡ true

or_plain-HasType :
    (given : GivenType) (type : String) → or_plain given ≡ some type → HasType given type
or_plain-HasType omitted type h =
    subst (HasType omitted) (some-injective "text/plain" type h) by_default
or_plain-HasType not_a_text type h = absurd (cc)
or_plain-HasType (type_text t) type h =
    subst (HasType (type_text t)) (some-injective t type h) (as_given t)

-- If a POST request of an extension is sent, it goes to the address that was given with the body
-- that was given, the guard has let that address pass, the body is of one of the types that are
-- allowed, and its content type is the one that was given, or "text/plain" where none was, and
-- stands in the list of those that are allowed.
pub post_request-IsAllowed :
    (parse_url : String → Option Url) (argument input : String) (body : Body) (given : GivenType)
    (sent : Request)
    → post_request parse_url argument (some input) body given ≡ ok sent
    → IsAllowed parse_url argument input body given sent
unfolding post_request
post_request-IsAllowed parse_url argument input body given sent h =
    let (u, valid, more) = >>=-eq-ok (validate_request_data body (or_plain given)) _ h in
    let (v, passed, end) = >>=-eq-ok (guard parse_url (some input) argument) _ more in
    let (is_valid, (type, is_type, listed)) = valid-data body (or_plain given) u valid in
    subst (IsAllowed parse_url argument input body given) (ok_inj end) (record {
      url = refl;
      method = refl;
      passed = passed;
      same_body = refl;
      valid_body = is_valid;
      type = type;
      has_type = or_plain-HasType given type is_type;
      sent_type = is_type;
      listed = listed;
    })
  where
    ok_inj : {a b : Request} → ok a ≡ ok b → a ≡ b
    ok_inj e = cc
