-- ===== src/Process/Tests.antt =====
-- A kernel shortly before its counter of process numbers wraps.
use cubik_os.Prelude.{◌≡◌, ◌≢◌, ◌+◌, ◌*◌, ◌<◌, ◌^◌, false, arith}
use cubik_os.Process.Defs.{Process, Kernel}
use cubik_os.Process.Pids.{pid_at, get_next_pid-distinct}

abbrev process : Process
process = record {
  name = 0;
  process_id = 0;
  type = 0;
  file = 0;
  activity = 0;
  is_focus = false;
  is_idle = false;
  threads = 1;
  handles = 0;
  memory_allocated = 0;
  memory_cached = 0;
  pages = 0;
  present_pages = 0;
  swapped_pages = 0;
  next_thread_id = 0;
  main_thread = 0;
  children_thread_list = 0;
  entry_point = 0;
  heap = 0;
  pagemap = 0;
  bitmap = 0;
}

abbrev kernel : Kernel
kernel = record {
  slab = record {
    caches = λ a. record {
      cpu_slab = λ i. record { freelist = 0; page = 0 };
      flags = 0;
      size = 64;
      node = λ i. 0;
      reserved = 0;
    };
    nodes = λ a. record { lock = 0; nr_partial = 0 };
    pointers = λ order. 4096 * (order + 1);
    cpu = 0;
  };
  current_process_id = 65530;
  process_list_by_pid = λ pid. 0;
  current_process = λ cpu. 0;
  processes = λ a. process;
  threads = λ a. record { thread_id = 0; thread_priority = 0; thread_state = 0 };
  activities = λ a. record { name = 0; process_count = 0 };
}

get_next_pid-distinct_example :
    (0 < 9 → 9 < 2 ^ 16 → pid_at 3 kernel ≢ pid_at (3 + 9) kernel)
    × (pid_at (3 + 2 ^ 16) kernel ≡ pid_at 3 kernel)
get_next_pid-distinct_example = get_next_pid-distinct 3 9 kernel (omega arith)
