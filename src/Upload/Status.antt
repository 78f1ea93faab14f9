-- ===== src/Upload/Status.antt =====
-- The statements on the status of a task, on the row of that task, where the calls work.
use cloud_box.Base.{
  ℕ, ◌≡◌, refl, sym, ◌∙◌, String, true, Option, some, List, arith, ◌==◌, and_left, str_eq, eq_iff,
  str_eq→eq,
}
use cloud_box.Fail.{ok}
use cloud_box.Exec.{works, call-works, query-works, ◌>>=◌}
use cloud_box.Sql.{find_where, affected}
use cloud_box.Sql.Laws.{find_where-update, find_where-holds}
use cloud_box.Sql.Keys.{Unique, find_where-Unique, find_where-keyed, affected-keyed, update-Unique}
use cloud_box.Upload.Model.{
  Task, Status, Store, same_status, uploading, completing, completed, failed,
}
use cloud_box.Upload.Repository.{
  has_id, is_task, is_task_in, with_status, set_status, transition_status, touch, touch_uploading,
}

abbrev pub task_id : Task → String
task_id t = t.id

abbrev pub UniqueTasks : List Task → Type 0
UniqueTasks = Unique str_eq eq_iff task_id

module _ {F : Type 0} where
  -- The task as its owner finds it.
  abbrev pub task_of : ℕ → String → Store F → Option Task
  task_of user id s = find_where (is_task user id) s.tasks

pub same_status_refl : (a : Status) → same_status a a ≡ true
same_status_refl uploading = refl
same_status_refl completing = refl
same_status_refl completed = refl
same_status_refl failed = refl

pub same_status→eq : (a b : Status) → same_status a b ≡ true → a ≡ b
same_status→eq a b h = ground arith

module _ {F : Type 0} (user : ℕ) (id : String) (s : Store F) (t : Task) (u : UniqueTasks s.tasks)
    (h : task_of user id s ≡ some t) where
  mine : is_task user id t ≡ true
  mine = find_where-holds (is_task user id) s.tasks t h

  pub same_id : t.id ≡ id
  same_id = str_eq→eq t.id id (and_left (has_id id t) (t.user_id == user) mine)

  in_status :
      (from : Status)
      → same_status t.status from ≡ true
      → find_where (is_task_in user id from) s.tasks ≡ some t
  in_status from f =
      find_where-keyed str_eq eq_iff task_id (is_task_in user id from) s.tasks t u
        (find_where-Unique str_eq eq_iff task_id (is_task user id) s.tasks t u h)
        (λ q m.
          str_eq→eq q.id id (
            and_left (has_id id q) (q.user_id == user)
              (and_left (is_task user id q) (same_status q.status from) m))
          ∙ sym same_id)
        (rw (mine, f) refl)

  -- From the status that the task has, a transition works and moves the task.
  pub transition_works :
      (from to : Status)
      → same_status t.status from ≡ true
      → transition_status user id from to (works s)
        ≡ (ok true, works (set_status user id from to s).1)
  unfolding transition_status set_status ◌>>=◌
  transition_works from to f =
      let one : affected (is_task_in user id from) s.tasks ≡ 1 =
        affected-keyed str_eq eq_iff task_id (is_task_in user id from) s.tasks t u
          (λ q m.
            str_eq→eq q.id id (
              and_left (has_id id q) (q.user_id == user)
                (and_left (is_task user id q) (same_status q.status from) m))
            ∙ sym same_id)
          (in_status from f) in
      rw (call-works, query-works, one) refl

  -- While the task is uploading, its time can be renewed.
  pub touch-works :
      same_status t.status uploading ≡ true
      → touch_uploading user id (works s) ≡ (ok true, works (touch user id s).1)
  unfolding touch_uploading touch ◌>>=◌
  touch-works f =
      let one : affected (is_task_in user id uploading) s.tasks ≡ 1 =
        affected-keyed str_eq eq_iff task_id (is_task_in user id uploading) s.tasks t u
          (λ q m.
            str_eq→eq q.id id (
              and_left (has_id id q) (q.user_id == user)
                (and_left (is_task user id q) (same_status q.status uploading) m))
            ∙ sym same_id)
          (in_status uploading f) in
      rw (call-works, query-works, one) refl

  pub moved :
      (from to : Status)
      → same_status t.status from ≡ true
      → task_of user id (set_status user id from to s).1 ≡ some (with_status s.clock to t)
  unfolding set_status
  moved from to f =
      rw
        (
          find_where-update (is_task_in user id from) (is_task user id) (with_status s.clock to)
              s.tasks (λ r. refl),
          h,
          mine,
          f,
        )
        refl

  pub set_status-UniqueTasks :
      (from to : Status) → UniqueTasks (set_status user id from to s).1.tasks
  unfolding set_status
  set_status-UniqueTasks from to =
      update-Unique str_eq eq_iff task_id (is_task_in user id from) (with_status s.clock to) s.tasks
        (λ r. refl) u

-- A transition touches no more than the table of tasks.
pub set_status_rest :
    {F : Type 0} (user : ℕ) (id : String) (from to : Status) (s : Store F)
    → ((set_status user id from to s).1.chunks ≡ s.chunks)
      × ((set_status user id from to s).1.disk ≡ s.disk)
      × ((set_status user id from to s).1.files ≡ s.files)
      × ((set_status user id from to s).1.clock ≡ s.clock)
unfolding set_status
set_status_rest user id from to s = (refl, refl, refl, refl)
