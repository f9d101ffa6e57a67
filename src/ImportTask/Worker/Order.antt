-- ===== src/ImportTask/Worker/Order.antt =====
-- Which tasks a poll picks: the oldest, and as many as there are free slots.
use openviking_admin.Prelude.{In-sort_by, ◌↔◌, List, In}
use openviking_admin.ImportTask.{ImportTask}
use openviking_admin.ImportTask.Worker.{sort_by_created_at}

pub In-sort_by_created_at :
    (y : ImportTask) (tasks : List ImportTask) → In y (sort_by_created_at tasks) ↔ In y tasks
unfolding sort_by_created_at
In-sort_by_created_at y tasks = In-sort_by (λ task. task.created_at) y tasks
