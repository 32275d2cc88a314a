-- ===== src/Strings/Defs.antt =====
-- Kernel/src/string.c, and memset, memcpy and memcmp of Kernel/src/mm/memory.c.
-- A pointer is an address and NULL is 0. A loop that ends at a character that it finds has fuel,
-- one unit for each round, and gives none where this runs out.
-- A function that returns the address that it is given is stated by the memory that it leaves.
use cubik_os.Prelude.{
  ℕ, zero, suc, ◌+◌, ◌-◌, ◌*◌, ◌/◌, ◌%◌, ◌^◌, Bool, true, false, ◌==◌, ltb, leb, ◌&&◌,
  if◌then◌else◌, Option, none, some, update, u8, u32,
}
use cubik_os.Bytes.{Bytes, load, store}

-- `char` is signed: a character as a 32-bit `int`, and the order of characters.
abbrev pub int_of : ℕ → ℕ
int_of c = if ltb c 128 then c else c + 2 ^ 32 - 2 ^ 8

abbrev char_lt : ℕ → ℕ → Bool
char_lt a b = ltb ((a + 128) % 2 ^ 8) ((b + 128) % 2 ^ 8)

-- The next call of a chain.
infixl 5 ◌>>=◌
abbrev ◌>>=◌ : {A B : Type 0} → Option A → (A → Option B) → Option B
none >>= f = none
some a >>= f = f a

-- `if test then here else go on`, where the rest is computed at need.
abbrev pub unless {ℓ} : {A : Type ℓ} → Bool → A → (Unit {0} → A) → A
unless true here rest = here
unless false here rest = rest tt

unfoldable pub strcpy : ℕ → ℕ → ℕ → Bytes → Option Bytes
strcpy zero dest src m = none
strcpy (suc fuel) dest src m =
    unless (m src == 0) (some (update m dest 0))
      (λ t. strcpy fuel (dest + 1) (src + 1) (update m dest (m src)))

unfoldable pub strncpy : ℕ → ℕ → ℕ → Bytes → Bytes
strncpy dest src zero m = update m dest 0
strncpy dest src (suc n) m =
    unless (m src == 0) (update m dest 0)
      (λ t. strncpy (dest + 1) (src + 1) n (update m dest (m src)))

unfoldable pub strlen_loop : ℕ → ℕ → ℕ → Bytes → Option ℕ
strlen_loop zero str i m = none
strlen_loop (suc fuel) str i m =
    unless (m (str + i) == 0) (some i) (λ t. strlen_loop fuel str (i + 1) m)

unfoldable pub strlen : ℕ → ℕ → Bytes → Option ℕ
strlen fuel str m = strlen_loop fuel str 0 m

unfoldable pub strcmp : ℕ → ℕ → ℕ → Bytes → Option ℕ
strcmp zero s1 s2 m = none
strcmp (suc fuel) s1 s2 m =
    if m s1 == m s2
    then unless (m s1 == 0) (some 0) (λ t. strcmp fuel (s1 + 1) (s2 + 1) m)
    else some (u32 (int_of (m s1) + 2 ^ 32 - int_of (m s2)))

-- The loop of strncmp, with `n` rounds left.
abbrev strncmp_loop : ℕ → ℕ → ℕ → ℕ → Bytes → ℕ
strncmp_loop s1 s2 zero i m = 0
strncmp_loop s1 s2 (suc n) i m =
    if m (s1 + i) == m (s2 + i)
    then unless (m (s1 + i) == 0) 0 (λ t. strncmp_loop s1 s2 n (i + 1) m)
    else if char_lt (m (s1 + i)) (m (s2 + i))
    then 2 ^ 32 - 1
    else 1

unfoldable pub strncmp : ℕ → ℕ → ℕ → Bytes → ℕ
strncmp s1 s2 n m = strncmp_loop s1 s2 n 0 m

unfoldable pub strchr : ℕ → ℕ → ℕ → Bytes → Option ℕ
strchr zero s c m = none
strchr (suc fuel) s c m =
    if m s == u8 c then some s else unless (m s == 0) (some 0) (λ t. strchr fuel (s + 1) c m)

-- When `n` runs out, `n--` leaves the largest `size_t`, and the test `n <= 0` fails.
unfoldable pub strnchr : ℕ → ℕ → ℕ → Bytes → ℕ
strnchr s c zero m = s
strnchr s c (suc n) m =
    if m s == u8 c
    then (if n == 0 then 0 else s)
    else unless (m s == 0) 0 (λ t. strnchr (s + 1) c n m)

abbrev strrchr_loop : ℕ → ℕ → ℕ → ℕ → Bytes → Option ℕ
strrchr_loop zero s c occ m = none
strrchr_loop (suc fuel) s c occ m =
    unless (m s == 0) (some occ)
      (λ t. strrchr_loop fuel (s + 1) c (if int_of (m s) == c then s + 1 else occ) m)

unfoldable pub strrchr : ℕ → ℕ → ℕ → Bytes → Option ℕ
strrchr fuel s c m = strrchr_loop fuel s c 0 m

-- The loops of strspn and of strcspn.
abbrev strspn_loop : ℕ → ℕ → ℕ → ℕ → Bytes → Option ℕ
strspn_loop zero s1 s2 ret m = none
strspn_loop (suc fuel) s1 s2 ret m = unless (m s1 == 0) (some ret) (λ t.
    elim (strchr fuel s2 (int_of (m s1)) m) [
      | none ↦ none
      | some at ↦ unless (at == 0) (some ret) (λ t. strspn_loop fuel (s1 + 1) s2 (ret + 1) m)
    ])

unfoldable pub strspn : ℕ → ℕ → ℕ → Bytes → Option ℕ
strspn fuel s1 s2 m = strspn_loop fuel s1 s2 0 m

abbrev strcspn_loop : ℕ → ℕ → ℕ → ℕ → Bytes → Option ℕ
strcspn_loop zero s1 s2 ret m = none
strcspn_loop (suc fuel) s1 s2 ret m = unless (m s1 == 0) (some ret) (λ t.
    elim (strchr fuel s2 (int_of (m s1)) m) [
      | none ↦ none
      | some at ↦
          if at == 0
          then (let rest = strcspn_loop fuel (s1 + 1) s2 (ret + 1) m in rest)
          else some ret
    ])

unfoldable pub strcspn : ℕ → ℕ → ℕ → Bytes → Option ℕ
strcspn fuel s1 s2 m = strcspn_loop fuel s1 s2 0 m

-- strtok_r, which reads `*saveptr` and never writes it: the token, or NULL, and the memory.
unfoldable pub strtok_r : ℕ → ℕ → ℕ → ℕ → Bytes → Option (ℕ × Bytes)
strtok_r fuel str delim saveptr m =
    let p = if str == 0 then load 8 saveptr m else str in
    unless (p == 0) (some (0, m)) (λ t. do
      skip ← strspn fuel p delim m
      count ← strcspn fuel (p + skip) delim m
      let token = p + skip
      let end = token + count
      (if count == 0
          then some (0, m)
          else some (token, (if m end == 0 then m else update m end 0))))

unfoldable pub strcat : ℕ → ℕ → ℕ → Bytes → Option Bytes
strcat fuel dest src m = do n ← strlen fuel dest m; strcpy fuel (dest + n) src m

unfoldable pub strncat : ℕ → ℕ → ℕ → ℕ → Bytes → Option Bytes
strncat fuel dest src n m = do i ← strlen fuel dest m; some (strncpy (dest + i) src n m)

-- 'a' is 97, 'z' is 122 and 'A' is 65.
unfoldable pub touppercase : ℕ → ℕ
touppercase c = if leb 97 c && leb c 122 then c - 97 + 65 else c

unfoldable pub strupr_loop : ℕ → ℕ → ℕ → Bytes → Option Bytes
strupr_loop zero s i m = none
strupr_loop (suc fuel) s i m =
    unless (m (s + i) == 0) (some m)
      (λ t. strupr_loop fuel s (i + 1) (update m (s + i) (touppercase (m (s + i)))))

unfoldable pub strupr : ℕ → ℕ → Bytes → Option Bytes
strupr fuel s m = strupr_loop fuel s 0 m

abbrev strnupr_loop : ℕ → ℕ → ℕ → Bytes → Bytes
strnupr_loop s zero i m = m
strnupr_loop s (suc n) i m =
    unless (m (s + i) == 0) m
      (λ t. strnupr_loop s n (i + 1) (update m (s + i) (touppercase (m (s + i)))))

unfoldable pub strnupr : ℕ → ℕ → Bytes → Bytes
strnupr s n m = strnupr_loop s n 0 m

-- memset
unfoldable pub memset : ℕ → ℕ → ℕ → Bytes → Bytes
memset addr val zero m = m
memset addr val (suc count) m = memset (addr + 1) val count (update m addr (u8 val))

-- One of the three loops of memcpy, for words of `size` bytes, with `n` rounds left.
unfoldable pub copy_words : ℕ → ℕ → ℕ → ℕ → Bytes → Bytes
copy_words size zero dp sp m = m
copy_words size (suc n) dp sp m =
    copy_words size n (dp + size) (sp + size) (store size dp (load size sp m) m)

-- memcpy, whose `dp` starts at `addr`: the result, and the memory.
unfoldable pub memcpy : ℕ → ℕ → ℕ → Bytes → ℕ × Bytes
memcpy dest addr count m =
    let sp = addr in
    let dp = addr in
    let m8 = copy_words 8 (count / 8) dp sp m in
    let at8 = count / 8 * 8 in
    let m4 = copy_words 4 (count % 8 / 4) (dp + at8) (sp + at8) m8 in
    let at4 = at8 + count % 8 / 4 * 4 in (dest, copy_words 1 (count % 4) (dp + at4) (sp + at4) m4)

unfoldable pub memcmp_loop : ℕ → ℕ → ℕ → ℕ → Bytes → ℕ
memcmp_loop s1 s2 zero i m = 0
memcmp_loop s1 s2 (suc n) i m =
    if m (s1 + i) == m (s2 + i)
    then (let rest = memcmp_loop s1 s2 n (i + 1) m in rest)
    else u32 (m (s1 + i) + 2 ^ 32 - m (s2 + i))

unfoldable pub memcmp : ℕ → ℕ → ℕ → Bytes → ℕ
memcmp s1 s2 n m = memcmp_loop s1 s2 n 0 m
