-- ===== src/Memory/Defs.antt =====
-- Addresses, the objects behind them, and the state monad with faults.
use cubik_os.Prelude.{ℕ, Bool, Option, none, some, update}

abbrev pub null : ℕ
null = 0

-- `lklist_node_t` of Kernel/include/utils/list.h
pub record Node : Type 0 where
  pub prev : ℕ
  pub next : ℕ

abbrev pub node : ℕ → ℕ → Node
node p n = record { prev = p; next = n }

-- `pageframe_t` of Kernel/include/mm/page.h, less its list node, which stands at the same address.
pub record Frame : Type 0 where
  pub order : ℕ
  pub free : Bool
  pub kmem : Bool
  pub slab_inuse : ℕ
  pub slab_objects : ℕ
  pub slab_frozen : Bool
  pub slab_cache : ℕ
  pub freelist : ℕ
  pub lock : ℕ
  pub addr : ℕ

-- `pf_freelist` is the address of the array of free lists, and `count` holds their counters.
pub record Store : Type 0 where
  pub nodes : ℕ → Option Node
  pub frames : ℕ → Option Frame
  pub count : ℕ → ℕ
  pub pf_freelist : ℕ

-- `spent` is a loop that ran out of the fuel it was given.
pub data Run (A : Type 0) : Type 0 where
  ok : A → Store → Run A
  fault hang spent : Run A

abbrev pub Cmd : Type 0 → Type 0
Cmd A = Store → Run A

abbrev pub pure : {A : Type 0} → A → Cmd A
pure = ok

module _ {A B : Type 0} where
  abbrev pub and_then : Run A → (A → Cmd B) → Run B
  and_then (ok a s) k = k a s
  and_then fault k = fault
  and_then hang k = hang
  and_then spent k = spent

  infixl 5 ◌>>=◌ ◌>>◌
  abbrev pub ◌>>=◌ : Cmd A → (A → Cmd B) → Cmd B
  ◌>>=◌ m k s = and_then (m s) k

  abbrev pub ◌>>◌ : Cmd A → Cmd B → Cmd B
  ◌>>◌ m k s = and_then (m s) (λ _. k)

unfoldable pub load_node : ℕ → Cmd Node
load_node p s = elim (s.nodes p) [ none ↦ fault | some n ↦ ok n s ]

unfoldable pub store_node : ℕ → Node → Cmd (Unit {0})
store_node p n s = ok tt (record s { nodes = update s.nodes p (some n) })

-- `p->prev = q` and `p->next = q`
unfoldable pub set_prev : ℕ → ℕ → Cmd (Unit {0})
set_prev p q = do n ← load_node p; store_node p (record n { prev = q })

unfoldable pub set_next : ℕ → ℕ → Cmd (Unit {0})
set_next p q = do n ← load_node p; store_node p (record n { next = q })

unfoldable pub load_frame : ℕ → Cmd Frame
load_frame p s = elim (s.frames p) [ none ↦ fault | some f ↦ ok f s ]

unfoldable pub store_frame : ℕ → Frame → Cmd (Unit {0})
store_frame p f s = ok tt (record s { frames = update s.frames p (some f) })

-- `pf_freelist[i].count`
unfoldable pub load_count : ℕ → Cmd ℕ
load_count i s = ok (s.count i) s

unfoldable pub store_count : ℕ → ℕ → Cmd (Unit {0})
store_count i c s = ok tt (record s { count = update s.count i c })
