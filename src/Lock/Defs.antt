-- ===== src/Lock/Defs.antt =====
-- AcquireLock and ReleaseLock of Kernel/include/utils/spinlock.h, one instruction at a time. The
-- exchange is atomic, and so is each access to the word of the lock.
use cubik_os.Prelude.{ℕ, ◌≡◌, ◌≢◌, update}

-- Where a processor stands; `lv` is the register that `lockVal` has.
pub data Pc : Type 0 where
  outside : Pc  -- not in either function
  exchange : (lv : ℕ) → Pc  -- at the label 1
  testing : (lv : ℕ) → Pc  -- behind the exchange
  waiting : (lv : ℕ) → Pc  -- at the label 2
  holding : Pc  -- behind the label 3, up to the end of ReleaseLock

-- One step of one processor, with the word of the lock before and after it.
pub data Move : ℕ → Pc → ℕ → Pc → Type 0 where
  call : {word : ℕ} → Move word outside word (exchange 1)
  xchg : {word lv : ℕ} → Move word (exchange lv) lv (testing word)
  jz : {word lv : ℕ} → lv ≡ 0 → Move word (testing lv) word holding
  fall : {word lv : ℕ} → lv ≢ 0 → Move word (testing lv) word (waiting lv)
  jnz : {word lv : ℕ} → word ≢ 0 → Move word (waiting lv) word (waiting lv)
  jmp : {word lv : ℕ} → word ≡ 0 → Move word (waiting lv) word (exchange lv)
  release : {word : ℕ} → Move word holding 0 outside

-- The lock and the processors.
pub record System : Type 0 where
  pub word : ℕ
  pub pcs : ℕ → Pc

-- A step of the processor `i`.
pub data Step (s : System) : System → Type 0 where
  step :
      (i : ℕ) {word : ℕ} {pc : Pc}
      → Move s.word (s.pcs i) word pc
      → Step s (record { word = word; pcs = update s.pcs i pc })

-- The systems that any number of steps reach.
pub data Reach (s : System) : System → Type 0 where
  start : Reach s s
  next : {t u : System} → Reach s t → Step t u → Reach s u

-- The lock is free and no processor uses it.
abbrev pub unused : System
unused = record { word = 0; pcs = λ i. outside }
