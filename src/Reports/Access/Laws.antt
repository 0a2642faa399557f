-- ===== src/Reports/Access/Laws.antt =====
-- Who gets a report generated, and who gets it.
use prompt_flow_ai.Prelude.{
  ℕ, ◌≡◌, ◌⊎◌, inl, inr, refl, sym, ap, String, Bool, true, false, not, ◌&&◌, ◌||◌, if◌then◌else◌,
  both, contradiction, Option, none, some, [], ◌∷◌, ◌++◌, arith, if-elim, Bool-cases, is_some,
  unnegated, str_eq, eq_iff,
}
use prompt_flow_ai.Prelude.Text.{Text}
use prompt_flow_ai.Http.{not_ok, Answer, ok, http_error, unhandled}
use prompt_flow_ai.Reports.Access.{
  ReportType, naac_criteria_iii, faculty_profile, pending, leads, own_profile, World, UserContext,
  get_current_user, is_authorized, ReportRequest, Row, State, new_row, is_profile, generate_for,
  as_user, generate_report, find_row, shown, status_for, Download, linked, is_completed, url_of,
  download_row, download_report, for_user,
}

-- Who may ask for a report: those who lead, and a faculty member for the own profile.
abbrev pub MayAsk : UserContext → ReportRequest → Type 0
MayAsk u r =
    (u.role ≡ "coordinator")
    ⊎ (u.role ≡ "hod")
    ⊎ (u.role ≡ "admin")
    ⊎ ((r.report_type ≡ faculty_profile)
        × (u.role ≡ "faculty")
        × (f : String) × (u.faculty_id ≡ some f)
        × (r.faculty_id ≡ some f))

-- A row that waits for its file, in the name of the caller, for what was asked.
abbrev pub IsPendingRow : World → UserContext → ReportRequest → Row → Type 0
IsPendingRow w u r row =
    (row.report_id ≡ w.report_id)
    × (row.status ≡ pending)
    × (row.report_type ≡ r.report_type)
    × (row.department_code ≡ r.department_code)
    × (row.academic_year ≡ r.academic_year)
    × (row.generated_by ≡ u.user_id)
    × (row.s3_uri ≡ none)
    × (row.checksum_sha256 ≡ none)

-- The one way in which a request changes the state: for the token's user, who may make it, the task
-- that makes the file, and its pending row when the session commits.
pub record IsRequested (w : World) (a : Option Text) (r : ReportRequest) (s s' : State)
    : Type 0 where
  pub caller : UserContext
  pub accepted : get_current_user w a ≡ ok caller
  pub authorized : MayAsk caller r
  pub one_row :
      w.commits ≡ true
      → (row : Row) × IsPendingRow w caller r row
        × (s'.generated_reports ≡ s.generated_reports ++ row ∷ [])
  pub no_row : w.commits ≡ false → s'.generated_reports ≡ s.generated_reports
  pub one_task :
      s'.background_tasks
      ≡ s.background_tasks
        ++ record {
          report_id = w.report_id;
          request = r;
          generated_by = caller.user_id;
          role = caller.role;
        }
          ∷ []

leads-MayAsk : (u : UserContext) (r : ReportRequest) → leads u.role ≡ true → MayAsk u r
leads-MayAsk u r h = elim (Bool-cases (str_eq u.role "coordinator")) [
  | inl e ↦ inl ((eq_iff u.role "coordinator").0 e)
  | inr e ↦ elim (Bool-cases (str_eq u.role "hod")) [
    | inl f ↦ inr (inl ((eq_iff u.role "hod").0 f))
    | inr f ↦ inr (inr (inl ((eq_iff u.role "admin").0 (last _ _ _ e f h))))
  ]
]
  where
    last : (a b c : Bool) → a ≡ false → b ≡ false → (a || (b || (c || false))) ≡ true → c ≡ true
    last a b c e f h = ground arith

own :
    (u : UserContext) (r : ReportRequest) (f t : Option String)
    → own_profile f t ≡ true
    → (x : String) × (f ≡ some x) × (t ≡ some x)
own u r none t h = absurd (contradiction h refl)
own u r (some f) none h = absurd (contradiction h refl)
own u r (some f) (some t) h = (f, refl, ap some (sym ((eq_iff f t).0 h)))

profile-MayAsk :
    (u : UserContext) (r : ReportRequest)
    → r.report_type ≡ faculty_profile
    → (leads u.role || str_eq u.role "faculty" && own_profile u.faculty_id r.faculty_id) ≡ true
    → MayAsk u r
profile-MayAsk u r e h = elim (Bool-cases (leads u.role)) [
  | inl t ↦ leads-MayAsk u r t
  | inr t ↦
      let (x, y) = both (second _ _ t h) in
      let (f, mine, target) = own u r u.faculty_id r.faculty_id y in
      inr (inr (inr (e, (eq_iff u.role "faculty").0 x, f, mine, target)))
]
  where
    second : (a b : Bool) → a ≡ false → (a || b) ≡ true → b ≡ true
    second a b t h = ground arith

is_authorized-MayAsk :
    (u : UserContext) (r : ReportRequest)
    → is_authorized u r.report_type r.faculty_id ≡ true
    → MayAsk u r
unfolding is_authorized
is_authorized-MayAsk u r h = by_type r.report_type refl h
  where
    by_type :
        (t : ReportType) → r.report_type ≡ t → is_authorized u t r.faculty_id ≡ true → MayAsk u r
    by_type naac_criteria_iii e h = leads-MayAsk u r h
    by_type faculty_profile e h = profile-MayAsk u r e h

abbrev Outcome : World → Option Text → ReportRequest → State → Answer Row × State → Type 0
Outcome w a r s x = (x.1 ≡ s) ⊎ IsRequested w a r s x.1

generate_for-Outcome :
    (w : World) (a : Option Text) (r : ReportRequest) (s : State) (u : UserContext)
    → get_current_user w a ≡ ok u
    → Outcome w a r s (generate_for w r s u)
unfolding generate_for
generate_for-Outcome w a r s u e =
    if-elim (Outcome w a r s) (not (is_authorized u r.report_type r.faculty_id)) _ _ (λ _. inl refl)
      (λ f.
        if-elim (Outcome w a r s) (is_profile r.report_type && not (is_some r.faculty_id)) _ _
          (λ _. inl refl)
          (λ _.
            if-elim (Outcome w a r s) (not w.database_works) _ _ (λ _. inl refl)
              (λ _. inr record {
                caller = u;
                accepted = e;
                authorized = is_authorized-MayAsk u r (unnegated f);
                one_row = λ t. (
                  new_row w u r,
                  (refl, refl, refl, refl, refl, refl, refl, refl),
                  ap
                      (λ b.
                        if b
                        then s.generated_reports ++ new_row w u r ∷ []
                        else s.generated_reports)
                      t,
                );
                no_row = λ t.
                    ap
                      (λ b.
                        if b
                        then s.generated_reports ++ new_row w u r ∷ []
                        else s.generated_reports)
                      t;
                one_task = refl;
              })))

as_user-Outcome :
    (w : World) (a : Option Text) (r : ReportRequest) (s : State) (c : Answer UserContext)
    → get_current_user w a ≡ c
    → Outcome w a r s (as_user c s (generate_for w r s))
unfolding as_user
as_user-Outcome w a r s (ok u) e = generate_for-Outcome w a r s u e
as_user-Outcome w a r s (http_error status detail) e = inl refl
as_user-Outcome w a r s unhandled e = inl refl

-- Whatever is asked, a request for a report changes nothing, or schedules one task for the user whom
-- the token names: a coordinator, head of department or admin, or a faculty member who asks for the
-- own profile. When its session commits, one row is added that waits for the file of that task, for
-- what was asked and in the user's name; when the commit fails, none is, although the task has run.
pub generate_report-IsRequested :
    (w : World) (a : Option Text) (r : ReportRequest) (s : State)
    → ((generate_report w a r s).1 ≡ s) ⊎ IsRequested w a r s (generate_report w a r s).1
unfolding generate_report
generate_report-IsRequested w a r s = as_user-Outcome w a r s (get_current_user w a) refl

-- What stands behind a download.
pub record IsDownload (w : World) (a : Option Text) (report_id : String) (s : State) (d : Download)
    : Type 0 where
  pub caller : UserContext
  pub row : Row
  pub url : Text
  pub checksum : String
  pub accepted : get_current_user w a ≡ ok caller
  pub found : find_row report_id s.generated_reports ≡ some row
  pub own_department : (caller.is_admin ≡ true) ⊎ (row.department_code ≡ caller.department_code)
  pub ready : is_completed row.status ≡ true
  pub signed : url_of w row.s3_uri ≡ some url
  pub summed : row.checksum_sha256 ≡ some checksum
  pub given : d ≡ record {
    download_url = url;
    expires_in_seconds = w.settings.expiry_seconds;
    checksum_sha256 = checksum;
  }

body_or : Download → Answer Download → Download
body_or d (ok x) = x
body_or d (http_error status detail) = d
body_or d unhandled = d

module _ (w : World) (a : Option Text) (report_id : String) (s : State) (d : Download) where
  -- An answer that is not this download, or one that is founded.
  abbrev Founded : Answer Download → Type 0
  Founded x = x ≡ ok d → IsDownload w a report_id s d

  refused : (status : ℕ) (detail : String) → Founded (http_error status detail)
  refused status detail e = absurd (not_ok _ d (λ x. x) e)

  crashed : Founded unhandled
  crashed e = absurd (not_ok _ d (λ x. x) e)

  module _ (u : UserContext) (accepted : get_current_user w a ≡ ok u) where
    linked-Founded :
        (r : Row) (url : Option Text) (checksum : Option String)
        → find_row report_id s.generated_reports ≡ some r
        → (u.is_admin ≡ true) ⊎ (r.department_code ≡ u.department_code)
        → is_completed r.status ≡ true
        → url_of w r.s3_uri ≡ url
        → r.checksum_sha256 ≡ checksum
        → Founded (linked w url checksum)
    unfolding linked body_or
    linked-Founded r none checksum f o c x y = crashed
    linked-Founded r (some url) none f o c x y = crashed
    linked-Founded r (some url) (some sum) f o c x y = λ e. record {
      caller = u;
      row = r;
      url = url;
      checksum = sum;
      accepted = accepted;
      found = f;
      own_department = o;
      ready = c;
      signed = x;
      summed = y;
      given = sym (ap (body_or d) e);
    }

    permitted :
        (r : Row)
        → (not u.is_admin && not (str_eq r.department_code u.department_code)) ≡ false
        → (u.is_admin ≡ true) ⊎ (r.department_code ≡ u.department_code)
    permitted r h = elim (Bool-cases u.is_admin) [
      | inl t ↦ inl t
      | inr f ↦ inr ((eq_iff r.department_code u.department_code).0 (last _ _ f h))
    ]
      where
        last : (x y : Bool) → x ≡ false → (not x && not y) ≡ false → y ≡ true
        last x y f h = ground arith

    shown-Founded :
        (o : Option Row)
        → find_row report_id s.generated_reports ≡ o
        → Founded (download_row w (shown u o))
    unfolding download_row shown
    shown-Founded none f = refused _ _
    shown-Founded (some r) f =
        if-elim (λ x. Founded (download_row w x))
          (not u.is_admin && not (str_eq r.department_code u.department_code)) _ _
          (λ _. refused _ _)
          (λ p.
            if-elim Founded (not (is_completed r.status)) _ _ (λ _. refused _ _)
              (λ c.
                linked-Founded r (url_of w r.s3_uri) r.checksum_sha256 f (permitted r p)
                  (unnegated c) refl refl))

    status_for-Founded : Founded (download_row w (status_for w report_id s u))
    unfolding status_for download_row
    status_for-Founded =
        if-elim (λ x. Founded (download_row w x)) w.database_works _ _
          (λ _. shown-Founded (find_row report_id s.generated_reports) refl) (λ _. crashed)

  user-Founded :
      (c : Answer UserContext)
      → get_current_user w a ≡ c
      → Founded (for_user c (λ u. download_row w (status_for w report_id s u)))
  unfolding for_user
  user-Founded (ok u) e = status_for-Founded u e
  user-Founded (http_error status detail) e = refused _ _
  user-Founded unhandled e = crashed

  -- A download is given only for a completed report, to a user whom the token names and who is an
  -- admin or of the report's department, as a link signed for the URI of that report's row, with
  -- the checksum of that row.
  pub download_report-IsDownload :
      download_report w a report_id s ≡ ok d → IsDownload w a report_id s d
  unfolding download_report
  download_report-IsDownload = user-Founded (get_current_user w a) refl
