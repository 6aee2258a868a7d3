-- ===== src/Invariant/Valid.antt =====
-- The statements of the services keep the invariant.
use specbook.Base.{ℕ, refl, List}
use specbook.Action.{Db}
use specbook.Action.Keeps.{Keeps}
use specbook.Session.{Session}
use specbook.TaskRepository.{insert_task, bulk_promote_drafts_to_ready}
use specbook.TaskService.Edits.{CreateTaskRequest, new_task}
use specbook.Invariant.{IsValid}
use specbook.Invariant.Statements.{
  Keeps-update_where, Keeps-update, Keeps-cas, Keeps-create_comment, Keeps-ack_notes,
  Keeps-create_notification, Keeps-detach_dependents, Keeps-delete_dependency,
}
use specbook.Invariant.Rows.{Fresh, insert_task_at, delete_task_at}
use specbook.Invariant.Dependencies.{Keeps-add_dependency}
use specbook.Invariant.Transition.{swap_at}
use specbook.Handlers.{Rules}
use specbook.Handlers.Edits.{plain}

inserted :
    (s : Session) (new_id : ℕ) (dto : CreateTaskRequest) (db : Db)
    → Fresh db new_id
    → IsValid db
    → IsValid (insert_task (new_task s new_id dto) db).1
unfolding new_task
inserted s new_id dto db fresh h = insert_task_at (new_task s new_id dto) db fresh refl h

promoted :
    (now org_id : ℕ) (ids : List ℕ) (by_user : ℕ)
    → Keeps IsValid (bulk_promote_drafts_to_ready now org_id ids by_user)
unfolding bulk_promote_drafts_to_ready
promoted now org_id ids by_user =
    Keeps-update_where now _ _ (plain _ (λ t. refl) (λ t. refl)) (λ t h. refl)

pub Rules-IsValid : (s : Session) → Rules IsValid s
Rules-IsValid s = record {
  update_row = λ id f k claims. Keeps-update s.now id s.active_user.org_id f k claims;
  swap_row = λ id from f k claims. Keeps-cas s.now id s.active_user.org_id from f k claims;
  swap_planned = swap_at s;
  insert_row = λ new_id dto db fresh checked h. inserted s new_id dto db fresh h;
  delete_row = λ id. record { at = delete_task_at id s.active_user.org_id };
  promote_rows = λ ids. promoted s.now s.active_user.org_id ids s.active_user.user_id;
  add_edge = Keeps-add_dependency s;
  remove_edge = Keeps-delete_dependency;
  detach_edges = Keeps-detach_dependents;
  add_comment_row = Keeps-create_comment;
  read_notes = λ id. Keeps-ack_notes s.now id s.active_user.org_id;
  add_notification = Keeps-create_notification;
}
