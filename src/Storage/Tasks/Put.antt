-- ===== src/Storage/Tasks/Put.antt =====
-- What putTask leaves behind: all of its writes, or none.
use agent_town.Prelude.{
  String, ◌≡◌, some, List, arith, is_empty, string_eq, pair_eq, if◌then◌else◌, ◌==◌, ◌&&◌,
}
use agent_town.Prelude.Table.{lookup-insert}
use agent_town.Contract.Task.{TaskRecord}
use agent_town.Result.{Result, ok, err, event_required}
use agent_town.Storage.Schema.{NewEvent}
use agent_town.Storage.Transaction.{Store}
use agent_town.Storage.Transaction.Commit.{outcome, commit, transact-commit}
use agent_town.Storage.Tasks.{task_row, put_task, write_task, get_task}

unfoldable pub put_outcome : String → TaskRecord → List NewEvent → Store → Result Store
unfolding write_task
put_outcome c t es s = if is_empty es then err event_required else outcome (write_task c t) es s

-- putTask raises and changes nothing, or makes every write.
pub put_task-commit :
    (c : String) (t : TaskRecord) (es : List NewEvent) (s : Store)
    → put_task c t es s ≡ commit (put_outcome c t es s) s
unfolding put_task put_outcome
put_task-commit c t es s = ground (arith, transact-commit (write_task c t) es s)

-- A written task is read back by its id, and every other task is read as before.
pub get_task-put_outcome :
    (c : String) (t : TaskRecord) (es : List NewEvent) (s s' : Store) (c' j : String)
    → put_outcome c t es s ≡ ok s'
    → get_task s' c' j ≡ (if c == c' && t.id == j then some t else get_task s c' j)
unfolding put_outcome outcome get_task
get_task-put_outcome c t es s s' c' j h =
    ground (arith, lookup-insert (c, t.id) (c', j) (task_row t) s.db.tasks)
