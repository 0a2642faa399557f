-- ===== src/Storage/Api/Recorded.antt =====
-- What an update of a paper of module 4 does to the row, and what is recorded of it.
use prompt_flow_ai.Prelude.{ℕ, ◌≡◌, true, Option, none, some, List, ◌∷◌, All}
use prompt_flow_ai.Http.{Answer, ok, http_error, unhandled}
use prompt_flow_ai.Storage.Api.Tables.{Row, Version, Database, Session, sees_paper}
use prompt_flow_ai.Storage.Api.Context.{World}
use prompt_flow_ai.Storage.Api.Updates.{PaperUpdate, assigned}
use prompt_flow_ai.Storage.Api.Changes.{Changed}

-- The row before and after, for a session that sees both.
abbrev pub IsAmended : Session → World → ℕ → PaperUpdate → Row × Row → Type 0
IsAmended s w id u c =
    (c.0.paper_id ≡ id)
    × (sees_paper s c.0.paper ≡ true)
    × (sees_paper s c.1.paper ≡ true)
    × (c.1 ≡ record c.0 { paper = assigned u c.0.paper; updated_at = w.now })

AllAmended : Session → World → ℕ → PaperUpdate → Option (List Row × List (Row × Row)) → Type 0
AllAmended s w id u none = Unit
AllAmended s w id u (some (rs, changes)) = All (IsAmended s w id u) changes

Becomes : Session → World → PaperUpdate → Row → Option Row → Type 0
Becomes s w u r none = Unit
Becomes s w u r (some new) =
    (sees_paper s new.paper ≡ true)
    × (new ≡ record r { paper = assigned u r.paper; updated_at = w.now })

-- The row takes its place, and the new version tells both states, the reason and the user.
abbrev pub Records : World → ℕ → PaperUpdate → Session → Database → Row → Database → Type 0
Records w id u s db r db' =
    (old : Row) × IsAmended s w id u (old, r)
    × Changed old r db.papers db'.papers
    × (v : Version) × (db'.versions ≡ v ∷ db.versions)
    × (v.before_state ≡ some old)
    × (v.after_state ≡ r)
    × (v.change_reason ≡ u.change_reason)
    × (v.changed_by ≡ s.user_id)

-- With another answer the database is as it was.
abbrev pub IsRecorded :
    World → ℕ → PaperUpdate → Answer Session → Database → Answer Row × Database → Type 0
IsRecorded w id u a db (ok r, db') = (s : Session) × (a ≡ ok s) × Records w id u s db r db'
IsRecorded w id u a db (http_error status detail, db') = db' ≡ db
IsRecorded w id u a db (unhandled, db') = db' ≡ db

-- What the handler leaves, before the commit.
Handled : World → ℕ → PaperUpdate → Session → Database → Answer Row × Database → Type 0
Handled w id u s db (ok r, db') = Records w id u s db r db'
Handled w id u s db (http_error status detail, db') = Unit
Handled w id u s db (unhandled, db') = Unit
