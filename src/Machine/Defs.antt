-- ===== src/Machine/Defs.antt =====
-- The machine state and its monad.
use cubik_os.Prelude.{ℕ, Bool}
use cubik_os.Memory
use cubik_os.Memory.{Store}
use cubik_os.Bytes.{Bytes}

-- `page_t` and `pd_entry_t` of Kernel/arch/x86_64/paging.h: the bits that the kernel sets, and
-- the 36 bits of the page's number.
pub record Entry : Type 0 where
  pub present : Bool
  pub writable : Bool
  pub usr : Bool
  pub addr : ℕ

-- `pointers` is kernelPageTablePointers, `entries t i` the entry `i` of the table at the address
-- `t`, `dirs` is kernelPageDirs, and `bytes` is the memory that the kernel reads through other
-- pointers. `memory_allocated` and `pages` are fields of the kernel process.
pub record Machine : Type 0 where
  pub store : Store
  pub pointers : ℕ → ℕ → ℕ
  pub entries : ℕ → ℕ → Entry
  pub dirs : ℕ → ℕ → Entry
  pub bytes : Bytes
  pub memory_allocated : ℕ
  pub pages : ℕ

-- `fault` is an access through NULL, `hang` a wait without end, `spent` a lack of fuel.
pub data Outcome (A : Type 0) : Type 0 where
  ok : A → Machine → Outcome A
  fault hang spent : Outcome A

abbrev pub Act : Type 0 → Type 0
Act A = Machine → Outcome A

abbrev pub pure : {A : Type 0} → A → Act A
pure = ok

module _ {A B : Type 0} where
  abbrev pub and_then : Outcome A → (A → Act B) → Outcome B
  and_then (ok a m) k = k a m
  and_then fault k = fault
  and_then hang k = hang
  and_then spent k = spent

  infixl 5 ◌>>=◌ ◌>>◌
  abbrev pub ◌>>=◌ : Act A → (A → Act B) → Act B
  ◌>>=◌ a k m = and_then (a m) k

  abbrev pub ◌>>◌ : Act A → Act B → Act B
  ◌>>◌ a k m = and_then (a m) (λ _. k)

-- A command of the allocator.
abbrev pub lifted : {A : Type 0} → Machine → Memory.Run A → Outcome A
lifted m (Memory.ok a s) = ok a (record m { store = s })
lifted m Memory.fault = fault
lifted m Memory.hang = hang
lifted m Memory.spent = spent

abbrev pub lift : {A : Type 0} → Memory.Cmd A → Act A
lift c m = lifted m (c m.store)
