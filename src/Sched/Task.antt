-- ===== src/Sched/Task.antt =====
-- `task_t` and the state of the scheduler, kernel/include/kernel/scheduler/task.h and
-- kernel/arch/i386/kernel/scheduler/task.c. A pointer is a number and `NULL` is 0; the memory of
-- tasks is a function from pointers. What `malloc` returns is an argument, with whatever the block
-- held before; the two registers that inline assembly reads are arguments too.
use ikaros.Base.{ℕ, Bool, true, false, ◌==◌, if◌then◌else◌}

abbrev pub null : ℕ
null = 0

pub record Registers : Type 0 where
  pub eax : ℕ
  pub ebx : ℕ
  pub ecx : ℕ
  pub edx : ℕ
  pub esi : ℕ
  pub edi : ℕ
  pub esp : ℕ
  pub ebp : ℕ
  pub eip : ℕ
  pub eflags : ℕ
  pub cr3 : ℕ

pub data TaskState : Type 0 where
  running interruptible uninterruptible : TaskState

abbrev pub is_running : TaskState → Bool
is_running running = true
is_running interruptible = false
is_running uninterruptible = false

pub record Task : Type 0 where
  pub regs : Registers
  pub next : ℕ
  pub name : ℕ
  pub state : TaskState

abbrev pub Store : Type 0
Store = ℕ → Task

abbrev pub update : Store → ℕ → Task → Store
update store p t q = if q == p then t else store q

abbrev pub set_next : Store → ℕ → ℕ → Store
set_next store p n = update store p (record (store p) { next = n })

abbrev zero_registers : Registers
zero_registers = record {
  eax = 0;
  ebx = 0;
  ecx = 0;
  edx = 0;
  esi = 0;
  edi = 0;
  esp = 0;
  ebp = 0;
  eip = 0;
  eflags = 0;
  cr3 = 0;
}

-- `memset` to zero, then the two registers and the state.
unfoldable pub task_wrap : ℕ → ℕ → ℕ → Store → Store
task_wrap task cr3 eflags store = update store task (record {
  regs = record zero_registers { cr3 = cr3; eflags = eflags };
  next = null;
  name = null;
  state = running;
})

-- `ebp` keeps what the block held.
unfoldable pub task_inherit : ℕ → ℕ → ℕ → ℕ → ℕ → ℕ → Store → Store
task_inherit task name entry_point stack cr3 eflags store = update store task (record {
  regs = record {
    eax = 0;
    ebx = 0;
    ecx = 0;
    edx = 0;
    esi = 0;
    edi = 0;
    esp = stack;
    ebp = (store task).regs.ebp;
    eip = entry_point;
    eflags = eflags;
    cr3 = cr3;
  };
  next = null;
  name = name;
  state = running;
})

unfoldable pub task_create : ℕ → ℕ → ℕ → ℕ → ℕ → ℕ → Store → Store
task_create task name entry_point eflags page_dir stack store = update store task (record {
  regs = record {
    eax = 0;
    ebx = 0;
    ecx = 0;
    edx = 0;
    esi = 0;
    edi = 0;
    esp = stack;
    ebp = (store task).regs.ebp;
    eip = entry_point;
    eflags = eflags;
    cr3 = page_dir;
  };
  next = null;
  name = name;
  state = running;
})

unfoldable pub task_set_state : ℕ → TaskState → Store → Store
task_set_state task state store = update store task (record (store task) { state = state })

unfoldable pub task_signal_pending : ℕ → Bool
task_signal_pending task = false
