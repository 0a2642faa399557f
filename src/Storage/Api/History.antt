-- ===== src/Storage/Api/History.antt =====
-- The database of module 4 keeps the whole history of each paper.
use mathlib.Core.Path.{subst}
use prompt_flow_ai.Prelude.{
  ℕ, suc, ◌≡◌, ◌∙◌, refl, sym, ap, Bool, true, false, ◌&&◌, map, Option, none, some, List, [], ◌∷◌,
  ◌>>=◌, length, leb, if◌then◌else◌, if-elim, arith, both,
}
use prompt_flow_ai.Storage.Schemas.{PaperCreate}
use prompt_flow_ai.Storage.Api.Tables.{
  paper_updated, audited, Row, Version, Database, Session, sees_child, put_version, initial_version,
  paper_version, next_number, max_version, max_seen, next_version, first_version, versions_of,
}
use prompt_flow_ai.Storage.Api.Context.{World, rls_context}
use prompt_flow_ai.Storage.Api.Papers.{
  create, create_paper, with_paper, upserted, inserted, new_row,
}
use prompt_flow_ai.Storage.Api.Updates.{
  update, update_rows, log_changes, update_paper, answer_update, PaperUpdate,
}
use prompt_flow_ai.Storage.Api.Reads.{
  resolve_issue, get_paper, list_papers, export_papers, get_paper_versions, get_paper_version,
  get_validation_issues, get_audit_log,
}
use prompt_flow_ai.Storage.Api.Steps.{
  IsFresh, Step, served-keeps, created, updated, resolved, got, listed, exported, got_versions,
  got_version, got_issues, got_audit_log,
}
use prompt_flow_ai.Storage.Api.Chain.{
  IsHistory, Distinct, HaveHistory, HaveHistory-other, IsVersioned, versions_of-own,
  where_rows-visible, max_version-length,
}
use prompt_flow_ai.Storage.Api.Changes.{
  Changed, IsOutcome, update_rows-IsOutcome, Changed-Distinct, Changed-IsHistory,
  HaveHistory-Changed,
}

-- What is put is put by a session that sees the paper.
pub put_version-elim {ℓ} :
    (P : Option (List Version) → Type ℓ) (s : Session) (papers : List Row) (v : Version)
    (vs : List Version)
    → P none
    → (sees_child s papers v.paper_id ≡ true → P (some (v ∷ vs)))
    → P (put_version s papers v vs)
unfolding put_version
put_version-elim P s papers v vs h k =
    if-elim P (sees_child s papers v.paper_id && leb (length v.changed_by) 100) _ _
      (λ e. k (both e).0) (λ _. h)

number_counts :
    (s : Session) (papers : List Row) (id : ℕ) (vs : List Version) (r : Row)
    → IsHistory (versions_of id vs) r
    → sees_child s papers id ≡ true
    → next_number (max_seen s papers id vs) ≡ suc (length (versions_of id vs))
unfolding next_number max_seen
number_counts s papers id vs r h k =
    ap (λ us. next_number (max_version us)) (where_rows-visible s papers id vs k)
    ∙ ap next_number (max_version-length (versions_of id vs) r h)
    ∙ omega arith

-- What a raised exception or a database leaves.
WhenDone : {A : Type 0} → Option (A × Database) → Type 0
WhenDone none = Unit
WhenDone (some (a, db)) = IsVersioned db

AreVersioned : Option Database → Type 0
AreVersioned none = Unit
AreVersioned (some db) = IsVersioned db

-- The version that the trigger adds continues the history of its paper.
continued :
    (s : Session) (w : World) (old new : Row) (rs : List Row) (db : Database)
    → Changed old new db.papers rs
    → HaveHistory db.versions db.papers
    → sees_child s rs new.paper_id ≡ true
    → IsHistory
        (versions_of new.paper_id (next_version s w.now rs old new db.versions ∷ db.versions))
        new
continued s w old new rs db c h k =
    let (e, i, _) = Changed-IsHistory old new db.versions db.papers rs c h in
    let i' = subst (λ n. IsHistory (versions_of n db.versions) old) (sym e) i in
    subst (λ us. IsHistory us new) (sym (versions_of-own new.paper_id _ db.versions refl))
      (refl, number_counts s rs new.paper_id db.versions old i' k, i')

one_logged :
    (s : Session) (w : World) (old new : Row) (rs : List Row) (db : Database)
    → Changed old new db.papers rs
    → IsVersioned db
    → AreVersioned (log_changes s w.now rs ((old, new) ∷ []) db)
unfolding log_changes paper_version AreVersioned
one_logged s w old new rs db c (h, d) =
    put_version-elim
      (λ o. AreVersioned (
        o >>= λ vs. some (record db {
          papers = rs;
          versions = vs;
          audit_log = audited s w.now paper_updated new db.audit_log;
        })))
      s rs _ db.versions tt
      (λ k. (
        HaveHistory-Changed old new (next_version s w.now rs old new db.versions) db.versions
            db.papers rs c refl (continued s w old new rs db c h k) d h,
        Changed-Distinct old new db.papers rs c d,
      ))

logged :
    (s : Session) (w : World) (db : Database) (o : Option (List Row × List (Row × Row)))
    → IsOutcome db.papers o
    → IsVersioned db
    → AreVersioned (o >>= λ x. log_changes s w.now x.0 x.1 db)
unfolding AreVersioned log_changes
logged s w db none h k = tt
logged s w db (some (rs, [])) h (k, d) =
    (subst (HaveHistory db.versions) (sym h) k, subst Distinct (sym h) d)
logged s w db (some (rs, c ∷ [])) h k = one_logged s w c.0 c.1 rs db h k
logged s w db (some (rs, c ∷ (e ∷ cs))) h k = absurd h

with_rows :
    (rows : List Row) (o : Option Database)
    → AreVersioned o
    → WhenDone (o >>= λ db. some (rows, db))
unfolding AreVersioned WhenDone
with_rows rows none h = tt
with_rows rows (some db) h = h

with_changes :
    (s : Session) (w : World) (db : Database) (o : Option (List Row × List (Row × Row)))
    → AreVersioned (o >>= λ x. log_changes s w.now x.0 x.1 db)
    → WhenDone (o >>= λ x. log_changes s w.now x.0 x.1 db >>= λ db'. some (map (λ c. c.1) x.1, db'))
unfolding WhenDone
with_changes s w db none h = tt
with_changes s w db (some (rs, changes)) h = with_rows (map (λ c. c.1) changes) _ h

update-WhenDone :
    (s : Session) (w : World) (id : ℕ) (u : PaperUpdate) (db : Database)
    → IsVersioned db
    → WhenDone (update s w id u db)
unfolding update
update-WhenDone s w id u db h =
    let s' = record s { change_reason = u.change_reason } in
    with_changes s' w db (update_rows s' w id u db.papers db.papers)
      (logged s' w db _ (update_rows-IsOutcome s' w id u db.papers db.papers h.1) h)

answered :
    (db : Database) (o : Option (List Row × Database))
    → IsVersioned db
    → WhenDone o
    → IsVersioned (answer_update db o).1
unfolding WhenDone answer_update
answered db none h k = h
answered db (some (rows, db')) h k = k

WhenDone-if :
    {A : Type 0} (b : Bool) (o : Option (A × Database))
    → WhenDone o
    → WhenDone (if b then o else none)
unfolding WhenDone
WhenDone-if true o h = h
WhenDone-if false o h = tt

-- A new paper begins its history.
first_put :
    (s : Session) (w : World) (p : PaperCreate) (papers : List Row) (db : Database)
    → IsFresh w.new_id db
    → IsVersioned db
    → WhenDone (
        with_paper s w
          (new_row w p)
          db
          (put_version s papers (first_version s w.now (new_row w p)) db.versions))
unfolding WhenDone with_paper new_row
first_put s w p papers db (f, g) (h, d) =
    let new = new_row w p in
    let v = first_version s w.now new in
    put_version-elim (λ o. WhenDone (with_paper s w new db o)) s papers v db.versions tt
      (λ _. (
        (
          subst (λ us. IsHistory us new)
              (sym (versions_of-own w.new_id v db.versions refl ∙ ap (λ us. v ∷ us) g))
              (refl, refl, tt),
          HaveHistory-other w.new_id v db.versions db.papers refl f h,
        ),
        (f, d),
      ))

create-WhenDone :
    (s : Session) (w : World) (p : PaperCreate) (db : Database)
    → IsFresh w.new_id db
    → IsVersioned db
    → WhenDone (create s w p db)
unfolding create initial_version
create-WhenDone s w p db f h = WhenDone-if _ _ (first_put s w p (new_row w p ∷ db.papers) db f h)

made :
    (o : Option (Option Row)) (db : Database) (m : Option (Row × Database))
    → IsVersioned db
    → WhenDone m
    → IsVersioned (upserted o db m).1
unfolding WhenDone upserted inserted
made none db m h k = h
made (some none) db none h k = h
made (some none) db (some (new, db')) h k = k
made (some (some r)) db m h k = h

-- After any request, in a database where each paper has its history: the latest version holds the
-- row of the paper, each version has for its number the count of versions up to it, the first has
-- no earlier state, and each other one has the state that the version before it left.
pub Step-IsVersioned : (db db' : Database) → Step db db' → IsVersioned db → IsVersioned db'
unfolding create_paper update_paper resolve_issue get_paper list_papers export_papers
    get_paper_versions get_paper_version get_validation_issues get_audit_log
Step-IsVersioned db _ (created w h p f) k =
    served-keeps IsVersioned w (rls_context w h) _ _ db k
      (λ s. made _ db _ k (create-WhenDone s w p db f k))
Step-IsVersioned db _ (updated w h id u) k =
    served-keeps IsVersioned w (rls_context w h) _ _ db k
      (λ s. answered db _ k (update-WhenDone s w id u db k))
Step-IsVersioned db _ (resolved w h id by) k =
    served-keeps IsVersioned w (rls_context w h) _ _ db k (λ s. k)
Step-IsVersioned db _ (got w h id) k =
    served-keeps IsVersioned w (rls_context w h) _ _ db k (λ s. k)
Step-IsVersioned db _ (listed w h f limit offset) k =
    served-keeps IsVersioned w (rls_context w h) _ _ db k (λ s. k)
Step-IsVersioned db _ (exported w h f limit) k =
    served-keeps IsVersioned w (rls_context w h) _ _ db k (λ s. k)
Step-IsVersioned db _ (got_versions w h id) k =
    served-keeps IsVersioned w (rls_context w h) _ _ db k (λ s. k)
Step-IsVersioned db _ (got_version w h id n) k =
    served-keeps IsVersioned w (rls_context w h) _ _ db k (λ s. k)
Step-IsVersioned db _ (got_issues w h id) k =
    served-keeps IsVersioned w (rls_context w h) _ _ db k (λ s. k)
Step-IsVersioned db _ (got_audit_log w h kind id limit) k =
    served-keeps IsVersioned w (rls_context w h) _ _ db k (λ s. k)
