-- ===== src/Process/Create.antt =====
-- Kernel/src/proc/proc.c, Kernel/src/proc/activity.c and Kernel/arch/x86_64/smp.c.
use cubik_os.Prelude.{ℕ, zero, suc, ◌+◌, true, false, ◌==◌, if◌then◌else◌, none, some, update, u32}
use cubik_os.Strings.Defs.{strlen, strcpy}
use cubik_os.Machine.{Act, ok, spent, pure, ◌>>=◌, ◌>>◌}
use cubik_os.Slab.Allocate.{Source, km_allocate, km_allocate_struct}
use cubik_os.Process.Defs.{Process, Kernel, priority_normal, task_state_idle, get_next_pid}

-- What the functions need besides the kernel's records: the slab's arguments, the sizes of the
-- structures, the fuel for strings, and what a function leaves that returns no value.
pub record Setting : Type 0 where
  pub rounds : ℕ
  pub source : Source
  pub thread_size : ℕ
  pub process_size : ℕ
  pub activity_size : ℕ
  pub core_size : ℕ
  pub text_fuel : ℕ
  pub junk : ℕ

-- KernelAllocateObject and KernelAllocateStruct
unfoldable pub kernel_allocate_object : Setting → ℕ → Kernel → Act (ℕ × Kernel)
kernel_allocate_object setting size kernel = do
  got ← km_allocate setting.rounds setting.source setting.thread_size size kernel.slab
  pure ((got).0, record kernel { slab = (got).1 })

unfoldable pub kernel_allocate_struct : Setting → ℕ → Kernel → Act (ℕ × Kernel)
kernel_allocate_struct setting id kernel = do
  got ← km_allocate_struct setting.rounds setting.source id kernel.slab
  pure ((got).0, record kernel { slab = (got).1 })

-- Memory for a string's characters without the NUL, and the copy with it.
unfoldable pub name_length : Setting → ℕ → Act ℕ
name_length setting name m = elim (strlen setting.text_fuel name m.bytes) [
  | none ↦ spent
  | some length ↦ ok length m
]

unfoldable pub copy_name : Setting → ℕ → ℕ → Act (Unit {0})
copy_name setting dest name m = elim (strcpy setting.text_fuel dest name m.bytes) [
  | none ↦ spent
  | some bytes ↦ ok tt (record m { bytes = bytes })
]

-- NewActivity
unfoldable pub new_activity : Setting → ℕ → Kernel → Act (ℕ × Kernel)
new_activity setting name kernel = do
  object ← kernel_allocate_object setting setting.activity_size kernel
  length ← name_length setting name
  buffer ← kernel_allocate_object setting length (object).1
  copy_name setting (buffer).0 name
  pure (
    (object).0,
    record (buffer).1 {
      activities =
          update (buffer).1.activities (object).0 (record { name = (buffer).0; process_count = 0 });
    },
  )

-- CreateThread behind its allocation: the process's counter goes up twice.
unfoldable pub start_thread : ℕ → ℕ → Kernel → Kernel
start_thread thread proc kernel =
    let p = kernel.processes proc in
    record kernel {
      threads = update kernel.threads thread (record {
        thread_id = u32 (p.next_thread_id + 1);
        thread_priority = priority_normal;
        thread_state = task_state_idle;
      });
      processes =
          update kernel.processes proc
            (record p { next_thread_id = u32 (u32 (p.next_thread_id + 1) + 1) });
    }

-- CreateThread. The result is 0 for NULL, and `junk` otherwise: the function returns no value.
unfoldable pub create_thread : Setting → ℕ → Kernel → Act (ℕ × Kernel)
create_thread setting proc kernel = if proc == 0 then pure (0, kernel) else do
  thread ← kernel_allocate_struct setting 16 kernel
  pure (setting.junk, start_thread (thread).0 proc (thread).1)

-- The structure that CreateProcessEx writes first. VM_CreatePagemap returns no value.
abbrev pub new_process : Setting → ℕ → ℕ → ℕ → ℕ → ℕ → Process
new_process setting name pid type file activity = record {
  name = name;
  process_id = pid;
  type = type;
  file = file;
  activity = activity;
  is_focus = false;
  is_idle = true;
  threads = 1;
  handles = 0;
  memory_allocated = 0;
  memory_cached = 0;
  pages = 0;
  present_pages = 0;
  swapped_pages = 0;
  next_thread_id = 0;
  main_thread = 0;
  children_thread_list = 0;
  entry_point = 0;
  heap = 0;
  pagemap = setting.junk;
  bitmap = 0;
}

-- CreateProcessEx up to its call of CreateThread; the result has the process's address.
unfoldable pub prepare_process : Setting → ℕ → ℕ → ℕ → ℕ → Kernel → Act (ℕ × Kernel)
prepare_process setting activity type file name kernel = do
  object ← kernel_allocate_object setting setting.process_size kernel
  length ← name_length setting name
  buffer ← kernel_allocate_object setting length (object).1
  let next = get_next_pid (buffer).1
  let made = new_process setting (buffer).0 (next).0 type file activity
  let written = record (next).1 { processes = update (next).1.processes (object).0 made }
  copy_name setting (buffer).0 name
  (if activity == 0
      then (do
        started ← new_activity setting (buffer).0 written
        pure (
          (object).0,
          record (started).1 {
            processes =
                update (started).1.processes (object).0 (record made { activity = (started).0 });
          },
        ))
      else pure ((object).0, written))

-- CreateProcessEx, which returns no value.
unfoldable pub create_process_ex : Setting → ℕ → ℕ → ℕ → ℕ → Kernel → Act Kernel
create_process_ex setting activity type file name kernel = do
  prepared ← prepare_process setting activity type file name kernel
  started ← create_thread setting (prepared).0 (prepared).1
  pure (record (started).1 {
    processes =
        update (started).1.processes (prepared).0 (record ((started).1.processes (prepared).0) {
          main_thread = (started).0;
          children_thread_list = (started).0;
        });
  })

-- CreateELFProcess: a background task with the name of its file.
unfoldable pub create_elf_process : Setting → ℕ → ℕ → Kernel → Act Kernel
create_elf_process setting file file_name kernel =
    create_process_ex setting 0 4 file file_name kernel

-- `cpus` and the numbers in the structures that it points to.
pub record Cores : Type 0 where
  pub cpus : ℕ → ℕ
  pub ids : ℕ → ℕ
  pub kernel : Kernel

-- __smp_InitializeProcessor
unfoldable pub initialize_processor : Setting → ℕ → Cores → Act Cores
initialize_processor setting cpu_id cores = do
  object ← kernel_allocate_object setting setting.core_size cores.kernel
  pure (record {
    cpus = update cores.cpus cpu_id (object).0;
    ids = update cores.ids (object).0 cpu_id;
    kernel = (object).1;
  })

-- The loop of SMP_Initialize over g_Processors, with `n` rounds left.
unfoldable pub initialize_processors : Setting → (ℕ → ℕ) → ℕ → ℕ → Cores → Act Cores
initialize_processors setting processors zero i cores = pure cores
initialize_processors setting processors (suc n) i cores = do
  next ← if processors i == 0 then pure cores else initialize_processor setting (processors i) cores
  initialize_processors setting processors n (i + 1) next

-- SMP_Initialize, less what it copies of the descriptor tables; `count` is g_ProcessorCount.
unfoldable pub smp_initialize : Setting → (ℕ → ℕ) → ℕ → Cores → Act Cores
smp_initialize setting processors count cores = do
  first ← initialize_processor setting 0 cores
  initialize_processors setting processors count 0 first
