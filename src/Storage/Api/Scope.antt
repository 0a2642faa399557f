-- ===== src/Storage/Api/Scope.antt =====
-- Whose papers a caller of module 4 is shown.
use prompt_flow_ai.Prelude.{
  ℕ, ◌≡◌, refl, Bool, true, false, not, ◌&&◌, ◌||◌, ◌⊎◌, inl, inr, not_some, Option, none, some,
  List, [], ◌∷◌, any, if-elim, All, All-take, All-drop, All-weaken, arith, both, contradiction,
}
use prompt_flow_ai.Prelude.Text.{Text, codes, text_eq, text_eq_iff}
use prompt_flow_ai.Http.{Answer, ok, http_error, unhandled}
use prompt_flow_ai.Storage.Schemas.{Status, published, draft, rejected, pending_review, PaperCreate}
use prompt_flow_ai.Storage.Api.Tables.{
  Row, Database, Session, sees_paper, is_admin, shows_status, where_rows,
}
use prompt_flow_ai.Storage.Api.Context.{
  World, Headers, rls_context, valid_roles, given, all_given, missing, identified, set_rls_context,
}
use prompt_flow_ai.Storage.Api.Papers.{served, finish}
use prompt_flow_ai.Storage.Api.Reads.{
  Filters, passes, put_in_order, order_by, list_rows, list_papers, export_papers,
}

module _ {ℓ κ} {A : Type ℓ} (P : A → Type κ) where
  put_in_order-All :
      (before : A → A → Bool) (x : A) (xs : List A)
      → P x
      → All P xs
      → All P (put_in_order before x xs)
  unfolding put_in_order
  put_in_order-All before x [] p h = (p, tt)
  put_in_order-All before x (y ∷ ys) p (q, h) =
      if-elim (All P) (before x y) _ _ (λ _. (p, (q, h)))
        (λ _. (q, put_in_order-All before x ys p h))

  order_by-All : (before : A → A → Bool) (xs : List A) → All P xs → All P (order_by before xs)
  unfolding order_by
  order_by-All before [] h = tt
  order_by-All before (x ∷ xs) (p, h) =
      put_in_order-All before x (order_by before xs) p (order_by-All before xs h)

where_rows-All {ℓ} :
    {A : Type ℓ} (keep : A → Bool) (xs : List A) → All (λ x. keep x ≡ true) (where_rows keep xs)
unfolding where_rows
where_rows-All keep [] = tt
where_rows-All keep (x ∷ xs) =
    if-elim (All (λ x. keep x ≡ true)) (keep x) _ _ (λ e. (e, where_rows-All keep xs))
      (λ _. where_rows-All keep xs)

-- A listed row is one that the session sees and that passes the filters.
list_rows-All :
    (s : Session) (f : Filters) (limit offset : ℕ) (papers : List Row)
    → All (λ r. (sees_paper s r.paper && passes f r) ≡ true) (list_rows s f limit offset papers)
unfolding list_rows
list_rows-All s f limit offset papers = All-take _ limit _ (
    All-drop _ offset _
      (order_by-All _ _ _ (where_rows-All (λ r. sees_paper s r.paper && passes f r) papers)))

-- A draft is read by its author only.
abbrev pub MayReadStatus : (faculty_id user_id : Text) → Status → Type 0
MayReadStatus faculty_id user_id draft = faculty_id ≡ user_id
MayReadStatus faculty_id user_id published = Unit
MayReadStatus faculty_id user_id rejected = Unit
MayReadStatus faculty_id user_id pending_review = Unit

-- For an admin any row, for others a row of their department with a status that they may read.
abbrev pub MayRead : (department role user_id : Text) → PaperCreate → Type 0
MayRead department role user_id p =
    (role ≡ codes "admin")
    ⊎ ((p.department_code ≡ department) × MayReadStatus p.faculty_id user_id p.status)

-- The headers of a request that is answered, unless the development setting is on.
abbrev pub Names : Headers → (department role user_id : Text) → Type 0
Names h department role user_id =
    (h.x_department_code ≡ some department) × (h.x_role ≡ some role) × (h.x_user_id ≡ some user_id)

abbrev pub IsScoped : Filters → Headers → Answer (List Row) → Type 0
IsScoped f h (ok rows) =
    (department : Text) × (role : Text) × (user_id : Text) × Names h department role user_id
    × All (λ r. MayRead department role user_id r.paper × (passes f r ≡ true)) rows
IsScoped f h (http_error status detail) = Unit
IsScoped f h unhandled = Unit

-- The session of an answered request is that of the headers.
IsSession : Headers → Answer Session → Type 0
IsSession h (ok s) =
    (department : Text) × (role : Text) × (user_id : Text) × Names h department role user_id
    × ((p : PaperCreate) → sees_paper s p ≡ true → MayRead department role user_id p)
IsSession h (http_error status detail) = Unit
IsSession h unhandled = Unit

right_holds : {a b : Bool} → (a || b) ≡ true → a ≡ false → b ≡ true
right_holds h e = ground arith

shows_status-read :
    (s : Session) (faculty_id : Text) (status : Status)
    → shows_status s faculty_id status ≡ true
    → MayReadStatus faculty_id s.user_id status
unfolding shows_status
shows_status-read s faculty_id draft h = (text_eq_iff faculty_id s.user_id).0 h
shows_status-read s faculty_id published h = tt
shows_status-read s faculty_id rejected h = tt
shows_status-read s faculty_id pending_review h = tt

sees_paper-read :
    (s : Session) (p : PaperCreate)
    → text_eq s.role (codes "admin") ≡ false
    → sees_paper s p ≡ true
    → MayRead s.department_code s.role s.user_id p
unfolding sees_paper is_admin
sees_paper-read s p e h =
    let (d, k) = both (right_holds h e) in
    inr (
      (text_eq_iff p.department_code s.department_code).0 d,
      shows_status-read s p.faculty_id p.status k,
    )

identified-IsSession :
    (w : World) (h : Headers) (department role user_id : Text)
    → Names h department role user_id
    → IsSession h (identified w department role user_id)
unfolding identified IsSession set_rls_context
identified-IsSession w h d r u n =
    if-elim (IsSession h) (not (any (text_eq r) valid_roles)) _ _ (λ _. tt)
      (λ _.
        if-elim (IsSession h) (text_eq r (codes "admin")) _ _
          (λ e. (d, r, u, n, λ p _. inl ((text_eq_iff r (codes "admin")).0 e)))
          (λ e.
            (d, r, u, n, λ p k. sees_paper-read (set_rls_context w d r u (codes "user")) p e k)))

missing-IsSession :
    (w : World) (h : Headers) → w.allow_missing_auth_headers ≡ false → IsSession h (missing w)
unfolding missing IsSession
missing-IsSession w h e =
    if-elim (IsSession h) w.allow_missing_auth_headers _ _ (λ t. absurd (contradiction t e))
      (λ _. tt)

all_given-IsSession :
    (w : World) (h : Headers)
    → w.allow_missing_auth_headers ≡ false
    → (d r u : Option Text) → ((t : Text) → d ≡ some t → h.x_department_code ≡ some t)
    → ((t : Text) → r ≡ some t → h.x_role ≡ some t)
    → ((t : Text) → u ≡ some t → h.x_user_id ≡ some t)
    → IsSession h (all_given w d r u)
unfolding all_given
all_given-IsSession w h e none r u a b c = missing-IsSession w h e
all_given-IsSession w h e (some d) none u a b c = missing-IsSession w h e
all_given-IsSession w h e (some d) (some r) none a b c = missing-IsSession w h e
all_given-IsSession w h e (some d) (some r) (some u) a b c =
    identified-IsSession w h d r u (a d refl, b r refl, c u refl)

given_as_sent : (o : Option Text) (t : Text) → given o ≡ some t → o ≡ some t
unfolding given
given_as_sent none t e = absurd (not_some e)
given_as_sent (some []) t e = absurd (not_some e)
given_as_sent (some (c ∷ cs)) t e = e

rls_context-IsSession :
    (w : World) (h : Headers) → w.allow_missing_auth_headers ≡ false → IsSession h (rls_context w h)
unfolding rls_context
rls_context-IsSession w h e =
    all_given-IsSession w h e _ _ _ (given_as_sent h.x_department_code) (given_as_sent h.x_role)
      (given_as_sent h.x_user_id)

served-IsScoped :
    (w : World) (f : Filters) (h : Headers) (a : Answer Session) (is_valid : Bool)
    (limit offset : ℕ) (db : Database)
    → IsSession h a
    → IsScoped f h
        (served w a is_valid (λ s db. (ok (list_rows s f limit offset db.papers), db)) db).0
unfolding served finish IsSession
served-IsScoped w f h (ok s) true limit offset db (d, r, u, n, k) = (
  d,
  r,
  u,
  n,
  All-weaken _ _ _ (λ x e. (k x.paper (both e).0, (both e).1))
      (list_rows-All s f limit offset db.papers),
)
served-IsScoped w f h (ok s) false limit offset db k = tt
served-IsScoped w f h (http_error status detail) is_valid limit offset db k = tt
served-IsScoped w f h unhandled is_valid limit offset db k = tt

-- Unless the setting for missing headers is on, a list of papers and an export are answered only
-- to a request that names a department, a role and a user. For an admin the rows pass the filters;
-- for others they also belong to the named department, and a draft is the user's own.
pub list_papers-IsScoped :
    (w : World) (h : Headers) (f : Filters) (limit offset : ℕ) (db : Database)
    → w.allow_missing_auth_headers ≡ false
    → IsScoped f h (list_papers w h f limit offset db).0
      × IsScoped f h (export_papers w h f limit db).0
unfolding list_papers export_papers
list_papers-IsScoped w h f limit offset db e = (
  served-IsScoped w f h (rls_context w h) _ limit offset db (rls_context-IsSession w h e),
  served-IsScoped w f h (rls_context w h) _ limit 0 db (rls_context-IsSession w h e),
)
