-- ===== src/Process/Defs.antt =====
-- The records of Kernel/include/proc/proc.h and Kernel/include/proc/activity.h, and
-- Kernel/src/proc/sched.c.
use cubik_os.Prelude.{ℕ, ◌+◌, Bool, ltb, if◌then◌else◌, update, u16}
use cubik_os.Slab.Defs.{Slab}

-- `struct Process`, less its file, its locks, its publisher and its package, which only get a
-- constant or an argument here.
pub record Process : Type 0 where
  pub name : ℕ
  pub process_id : ℕ
  pub type : ℕ
  pub file : ℕ
  pub activity : ℕ
  pub is_focus : Bool
  pub is_idle : Bool
  pub threads : ℕ
  pub handles : ℕ
  pub memory_allocated : ℕ
  pub memory_cached : ℕ
  pub pages : ℕ
  pub present_pages : ℕ
  pub swapped_pages : ℕ
  pub next_thread_id : ℕ
  pub main_thread : ℕ
  pub children_thread_list : ℕ
  pub entry_point : ℕ
  pub heap : ℕ
  pub pagemap : ℕ
  pub bitmap : ℕ

-- `struct Thread`, as far as CreateThread sets it.
pub record Thread : Type 0 where
  pub thread_id : ℕ
  pub thread_priority : ℕ
  pub thread_state : ℕ

-- `struct Activity`
pub record Activity : Type 0 where
  pub name : ℕ
  pub process_count : ℕ

abbrev pub priority_normal : ℕ
priority_normal = 2

abbrev pub task_state_idle : ℕ
task_state_idle = 1

-- The variables of sched.c, and the records at their addresses. The number of a process has 16 bits.
pub record Kernel : Type 0 where
  pub slab : Slab
  pub current_process_id : ℕ
  pub process_list_by_pid : ℕ → ℕ
  pub current_process : ℕ → ℕ
  pub processes : ℕ → Process
  pub threads : ℕ → Thread
  pub activities : ℕ → Activity

-- GetNextPID
unfoldable pub get_next_pid : Kernel → ℕ × Kernel
get_next_pid kernel = (
  kernel.current_process_id,
  record kernel { current_process_id = u16 (kernel.current_process_id + 1) },
)

-- GetProcessByPID
unfoldable pub get_process_by_pid : ℕ → Kernel → ℕ
get_process_by_pid pid kernel = if ltb 65535 pid then 0 else kernel.process_list_by_pid pid

-- PR_GetCurrentProcess and SchedulerInitialize; `kernel_process` is the address of g_kernelProcess.
unfoldable pub get_current_process : Kernel → ℕ
get_current_process kernel = kernel.current_process kernel.slab.cpu

unfoldable pub scheduler_initialize : ℕ → Kernel → Kernel
scheduler_initialize kernel_process kernel = record kernel {
  current_process = update kernel.current_process kernel.slab.cpu kernel_process;
}
