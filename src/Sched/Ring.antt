-- ===== src/Sched/Ring.antt =====
-- The circular list of tasks, kernel/kernel/scheduler/scheduler.c. A loop takes fuel, and `none` is
-- a loop that has not ended.
pub mod Segment
pub mod Insert
pub mod Unlink
pub mod Remove
pub mod Leave
pub mod Next
pub mod Circle
pub mod Fair
use ikaros.Base.{
  ℕ, zero, suc, ◌+◌, ◌%◌, ◌^◌, Bool, true, false, not, ◌&&◌, Option, none, some, ◌==◌,
  if◌then◌else◌,
}
use ikaros.Sched.Task.{
  null, Registers, TaskState, running, is_running, Task, Store, update, set_next, task_inherit,
  task_wrap,
}

-- `tasks`, `tasks_tail`, `running_task`, the tasks in memory, and the registers of the processor.
pub record Sched : Type 0 where
  pub tasks : ℕ
  pub tail : ℕ
  pub running_task : ℕ
  pub store : Store
  pub cpu : Registers

unfoldable pub scheduler_initialize : ℕ → Sched → Sched
scheduler_initialize task s =
    let wrapped = task_wrap task s.cpu.cr3 s.cpu.eflags s.store in
    record s { tasks = task; tail = task; running_task = task; store = set_next wrapped task task }

-- `while (curr != NULL && curr->state != TASK_RUNNING && curr != task) curr = curr->next;`
unfoldable pub next_running_loop : ℕ → Store → ℕ → ℕ → Option ℕ
next_running_loop zero store task curr = none
next_running_loop (suc fuel) store task curr =
    let rest = next_running_loop fuel store task (store curr).next in
    if not (curr == null) && (not (is_running (store curr).state) && not (curr == task))
    then rest
    else some curr

unfoldable pub scheduler_next_running_task : ℕ → Store → ℕ → Option ℕ
unfolding next_running_loop
scheduler_next_running_task fuel store task = next_running_loop fuel store task (store task).next

-- The registers of the processor are saved in `from`, and those saved in `to` are loaded.
unfoldable pub task_switch : ℕ → ℕ → Sched → Sched
task_switch from to s =
    let saved = update s.store from (record (s.store from) { regs = s.cpu }) in
    record s { store = saved; cpu = (saved to).regs }

unfoldable pub scheduler_yield : ℕ → Sched → Option Sched
unfolding task_switch
scheduler_yield fuel s = elim (scheduler_next_running_task fuel s.store s.running_task) [
  | none ↦ none
  | some next ↦
      if next == s.running_task
      then some s
      else some (task_switch s.running_task next (record s { running_task = next }))
]

unfoldable pub tasks_insert : ℕ → Sched → Sched
tasks_insert task s = record s {
  tail = task;
  store = set_next (set_next s.store task s.tasks) s.tail task;
}

-- `while (curr != tasks_tail && curr != task)`: the last `prev` and `curr`.
unfoldable pub remove_loop : ℕ → Store → ℕ → ℕ → ℕ → ℕ → Option (ℕ × ℕ)
remove_loop zero store tail task prev curr = none
remove_loop (suc fuel) store tail task prev curr =
    let rest = remove_loop fuel store tail task curr (store curr).next in
    if not (curr == tail) && not (curr == task) then rest else some (prev, curr)

-- The unlinking behind the loop.
unlink : ℕ → Sched → ℕ → ℕ → Sched
unlink task s prev curr =
    if curr == task
    then record s {
      store = set_next s.store prev (s.store curr).next;
      tail = if curr == s.tail then prev else s.tail;
    }
    else s

unfoldable pub tasks_remove : ℕ → ℕ → Sched → Option Sched
unfolding unlink
tasks_remove fuel task s =
    if task == s.tasks
    then some (record s {
      store = set_next s.store s.tail (s.store task).next;
      tasks = (s.store task).next;
    })
    else elim (remove_loop fuel s.store s.tail task s.tasks (s.store s.tasks).next) [
      | none ↦ none
      | some (prev, curr) ↦ some (unlink task s prev curr)
    ]

-- What `scheduler_exit` comes to: the panic, or the switch away from the task.
pub data Exit : Type 0 where
  shutdown : Exit
  switched : Sched → Exit

unfoldable pub scheduler_exit : ℕ → Sched → Option Exit
scheduler_exit fuel s =
    let from = s.running_task in
    let next = (s.store from).next in
    if next == null
    then some shutdown
    else if next == from
    then some shutdown
    else elim (tasks_remove fuel from (record s { running_task = next })) [
      | none ↦ none
      | some t ↦ some (switched (task_switch from next t))
    ]

-- `task` and `stack` are what the two calls of `malloc` return.
unfoldable pub scheduler_create_thread : ℕ → ℕ → ℕ → ℕ → Sched → Sched
scheduler_create_thread task stack name entry_point s = tasks_insert task (record s {
  store =
      task_inherit task name entry_point ((stack + 4096) % 2 ^ 32) s.cpu.cr3 s.cpu.eflags s.store;
})
