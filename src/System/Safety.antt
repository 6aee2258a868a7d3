-- ===== src/System/Safety.antt =====
-- What every statement of the task service keeps, every request keeps; so the invariant of
-- Invariant.antt holds in every database that the task service reaches.
use specbook.Action.{Db}
use specbook.Session.{Session}
use specbook.Invariant.{IsValid}
use specbook.Worker.Valid.{process-IsValid}
use specbook.Invariant.Valid.{Rules-IsValid}
use specbook.Handlers.{Rules}
use specbook.Handlers.Edits.{
  Keeps-clear_assumption, Keeps-set_assumption, Keeps-check_criterion, Keeps-report_cost,
  Keeps-agent_update_spec, Keeps-update_task, Keeps-add_comment, Keeps-get_notes,
}
use specbook.Handlers.Merge.{Keeps-merge, Keeps-sync_pr}
use specbook.Handlers.Transition.{Keeps-transition}
use specbook.Handlers.Requests.{create_at, Keeps-delete, Keeps-mark_ready, Keeps-remove_dependency}
use specbook.System.{Request, serve, Admits, Run, idle, served, delivered}

module _ (P : Db → Type 0) (s : Session) (rules : Rules P s) where
  pub serve-Keeps : (r : Request) (db : Db) → Admits db r → P db → P (serve s r db)
  unfolding serve
  serve-Keeps (Request.create new_id dto) db fresh h = create_at P s rules new_id dto db fresh h
  serve-Keeps (Request.update actor dto) db a h = (Keeps-update_task P s rules actor dto).at db h
  serve-Keeps (Request.agent_update_spec dto) db a h =
      (Keeps-agent_update_spec P s rules dto).at db h
  serve-Keeps (Request.transition actor dto) db a h = (Keeps-transition P s rules actor dto).at db h
  serve-Keeps (Request.merge id) db a h = (Keeps-merge P s rules id).at db h
  serve-Keeps (Request.sync_pr id) db a h = (Keeps-sync_pr P s rules id).at db h
  serve-Keeps (Request.check_criterion id index done) db a h =
      (Keeps-check_criterion P s rules id index done).at db h
  serve-Keeps (Request.report_cost id delta) db a h = (Keeps-report_cost P s rules id delta).at db h
  serve-Keeps (Request.set_assumption actor id flag) db a h =
      (Keeps-set_assumption P s rules actor id flag).at db h
  serve-Keeps (Request.clear_assumption id) db a h = (Keeps-clear_assumption P s rules id).at db h
  serve-Keeps (Request.add_comment actor id kind body) db a h =
      (Keeps-add_comment P s rules actor id kind body).at db h
  serve-Keeps (Request.get_notes id) db a h = (Keeps-get_notes P s rules id).at db h
  serve-Keeps (Request.add_dependency id on) db a h = (rules.add_edge id on).at db h
  serve-Keeps (Request.remove_dependency id on) db a h =
      (Keeps-remove_dependency P s rules id on).at db h
  serve-Keeps (Request.delete id) db a h = (Keeps-delete P s rules id).at db h
  serve-Keeps (Request.mark_ready project_id scope) db a h =
      (Keeps-mark_ready P s rules project_id scope).at db h

-- Every request leaves a valid database valid, whether it returns or throws: identifiers stay
-- unique, work under way keeps a claimant and queued work none, the foreign keys hold, edges stay
-- within a project, and no task comes to wait for itself. A created row gets a new identifier.
pub serve-IsValid :
    (s : Session) (r : Request) (db : Db) → Admits db r → IsValid db → IsValid (serve s r db)
serve-IsValid s r db a h = serve-Keeps IsValid s (Rules-IsValid s) r db a h

-- From a valid database, every sequence of requests and webhook events reaches valid databases only,
-- whatever GitHub answers.
pub Run-IsValid : {start db : Db} → Run start db → IsValid start → IsValid db
Run-IsValid idle h = h
Run-IsValid (served run s r fresh) h = serve-IsValid s r _ fresh (Run-IsValid run h)
Run-IsValid (delivered run job event) h = process-IsValid job event _ (Run-IsValid run h)
