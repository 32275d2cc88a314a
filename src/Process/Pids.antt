-- ===== src/Process/Pids.antt =====
-- The numbers of processes.
use cubik_os.Prelude.{ℕ, zero, suc, ◌+◌, ◌^◌, ◌<◌, ◌≡◌, ◌≢◌, u16, arith, ◌∙◌}
use cubik_os.Process.Defs.{Kernel, get_next_pid}

-- The kernel after `n` calls of GetNextPID, and the number that the call behind them returns.
abbrev pub calls : ℕ → Kernel → Kernel
calls zero kernel = kernel
calls (suc n) kernel = calls n (get_next_pid kernel).1

abbrev pub pid_at : ℕ → Kernel → ℕ
pid_at n kernel = (get_next_pid (calls n kernel)).0

pid_at_lem :
    (n : ℕ) (kernel : Kernel)
    → kernel.current_process_id < 2 ^ 16
    → pid_at n kernel ≡ u16 (kernel.current_process_id + n)
unfolding get_next_pid
pid_at_lem zero kernel word = omega arith
pid_at_lem (suc n) kernel word =
    pid_at_lem n (record kernel { current_process_id = u16 (kernel.current_process_id + 1) })
      (omega arith)
    ∙ omega arith

-- A call of GetNextPID and the one `d` calls later return different numbers for a positive `d` below
-- 65536, and the same number where the distance is 65536.
pub get_next_pid-distinct :
    (i d : ℕ) (kernel : Kernel)
    → kernel.current_process_id < 2 ^ 16
    → (0 < d → d < 2 ^ 16 → pid_at i kernel ≢ pid_at (i + d) kernel)
      × (pid_at (i + 2 ^ 16) kernel ≡ pid_at i kernel)
get_next_pid-distinct i d kernel word = (
  λ some_calls few same.
      omega (arith, pid_at_lem i kernel word, pid_at_lem (i + d) kernel word, same),
  pid_at_lem (i + 2 ^ 16) kernel word ∙ (omega (arith, pid_at_lem i kernel word)),
)
