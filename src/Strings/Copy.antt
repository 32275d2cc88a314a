-- ===== src/Strings/Copy.antt =====
-- strlen, strcpy, strncpy, strcat and strupr on texts.
use cubik_os.Prelude.{
  ℕ, zero, suc, ◌+◌, ◌≤◌, ◌<◌, ◌≡◌, refl, ◌≢◌, ◌⊎◌, inl, false, ◌==◌, some, List, [], ◌∷◌, ◌++◌,
  map, length, update, ap, arith, ◌∙◌,
}
use cubik_os.Bytes.{Bytes}
use cubik_os.Strings.Defs.{
  strlen, strlen_loop, strcpy, strncpy, strcat, strupr, strupr_loop, touppercase,
}
use cubik_os.Strings.Text.{IsText, IsText-same, IsText-append, Written, take}

test-nonzero : (x c : ℕ) → x ≡ c → c ≢ 0 → (x == 0) ≡ false
test-nonzero x c e h = ground arith

strlen_loop-text :
    (s : List ℕ) (fuel a i : ℕ) (m : Bytes)
    → IsText s (a + i) m
    → length s < fuel
    → strlen_loop fuel a i m ≡ some (i + length s)
unfolding strlen_loop
strlen_loop-text s zero a i m t lt = absurd (omega arith)
strlen_loop-text [] (suc fuel) a i m t lt = let e : i + 0 ≡ i = omega arith in rw (t, e)
strlen_loop-text (c ∷ s) (suc fuel) a i m (here, nonzero, t) lt =
    let e : a + i + 1 ≡ a + (i + 1) = omega arith in
    let f : i + suc (length s) ≡ i + 1 + length s = omega arith in
    rw (test-nonzero (m (a + i)) c here nonzero, f)
      (strlen_loop-text s fuel a (i + 1) m (rw (← e) t) (omega arith))

-- strlen of a text is the number of its characters, whatever the fuel above that.
pub strlen-text :
    (s : List ℕ) (fuel a : ℕ) (m : Bytes)
    → IsText s a m
    → length s < fuel
    → strlen fuel a m ≡ some (length s)
unfolding strlen
strlen-text s fuel a m t lt =
    let e : a + 0 ≡ a = omega arith in
    let f : length s ≡ 0 + length s = omega arith in
    rw f (strlen_loop-text s fuel a 0 m (rw e t) lt)

-- The character `c` in front of what is written behind it.
Written-cons :
    (c dest : ℕ) (s : List ℕ) (m m' : Bytes)
    → c ≢ 0
    → Written s (dest + 1) (update m dest c) m'
    → Written (c ∷ s) dest m m'
Written-cons c dest s m m' nonzero rest = record {
  text = (rest.outside dest (inl (omega arith)) ∙ ground arith, nonzero, rest.text);
  outside = λ b out. rest.outside b (ground (arith, out)) ∙ ground (arith, out);
}

Written-nil : (dest : ℕ) (m : Bytes) → Written [] dest m (update m dest 0)
Written-nil dest m = record { text = ground arith; outside = λ b out. ground (arith, out) }

-- strcpy of a text that does not overlap with its destination, with fuel above its length: it
-- ends, the text stands at the destination, and no other byte has changed.
pub strcpy-Written :
    (s : List ℕ) (fuel dest src : ℕ) (m : Bytes)
    → IsText s src m
    → (dest + length s < src) ⊎ (src + length s < dest)
    → length s < fuel
    → (m' : Bytes) × (strcpy fuel dest src m ≡ some m') × Written s dest m m'
unfolding strcpy
strcpy-Written s zero dest src m t apart lt = absurd (omega arith)
strcpy-Written [] (suc fuel) dest src m t apart lt = (update m dest 0, rw t, Written-nil dest m)
strcpy-Written (c ∷ s) (suc fuel) dest src m (here, nonzero, t) apart lt =
    let (m', run, done) =
      strcpy-Written s fuel (dest + 1) (src + 1) (update m dest c)
        (IsText-same s (src + 1) m (update m dest c) (λ b lo hi. ground (arith, apart)) t)
        (ground (arith, apart)) (omega arith) in
    (m', rw (here, test-nonzero c c refl nonzero) run, Written-cons c dest s m m' nonzero done)

-- strncpy of a text that does not overlap with the destination, even if the whole were
-- written: the first `n` characters of the text stand there, with a null behind them even
-- where these are `n`, and no other byte has changed.
pub strncpy-Written :
    (s : List ℕ) (n dest src : ℕ) (m : Bytes)
    → IsText s src m
    → (dest + length s < src) ⊎ (src + length s < dest)
    → Written (take n s) dest m (strncpy dest src n m)
unfolding strncpy
strncpy-Written s zero dest src m t apart = Written-nil dest m
strncpy-Written [] (suc n) dest src m t apart = rw t (Written-nil dest m)
strncpy-Written (c ∷ s) (suc n) dest src m (here, nonzero, t) apart =
    let rest =
      strncpy-Written s n (dest + 1) (src + 1) (update m dest c)
        (IsText-same s (src + 1) m (update m dest c) (λ b lo hi. ground (arith, apart)) t)
        (ground (arith, apart)) in
    rw (here, test-nonzero c c refl nonzero)
      (Written-cons c dest (take n s) m (strncpy (dest + 1) (src + 1) n (update m dest c)) nonzero
        rest)

-- strcat of two texts, with fuel above the sum of their lengths, where the second does not
-- overlap with the place behind the first: it ends, the first text is followed by the second,
-- and no other byte has changed.
pub strcat-Written :
    (t s : List ℕ) (fuel dest src : ℕ) (m : Bytes)
    → IsText t dest m
    → IsText s src m
    → (dest + length t + length s < src) ⊎ (src + length s < dest)
    → length t + length s < fuel
    → (m' : Bytes) × (strcat fuel dest src m ≡ some m')
      × IsText (t ++ s) dest m'
      × ((b : ℕ) → (b < dest + length t) ⊎ (dest + length t + length s < b) → m' b ≡ m b)
unfolding strcat
strcat-Written t s fuel dest src m old new apart lt =
    let (m', run, done) =
      strcpy-Written s fuel (dest + length t) src m new (ground (arith, apart)) (omega arith) in
    (
      m',
      rw (strlen-text t fuel dest m old (omega arith)) run,
      IsText-append t s dest m m' old (λ b lo hi. done.outside b (inl hi)) done.text,
      done.outside,
    )

touppercase-nonzero : (c : ℕ) → c ≢ 0 → touppercase c ≢ 0
unfolding touppercase
touppercase-nonzero c h = ground arith

strupr_loop-IsText :
    (s : List ℕ) (fuel a i : ℕ) (m : Bytes)
    → IsText s (a + i) m
    → length s < fuel
    → (m' : Bytes) × (strupr_loop fuel a i m ≡ some m')
      × IsText (map touppercase s) (a + i) m'
      × ((b : ℕ) → (b < a + i) ⊎ (a + i + length s ≤ b) → m' b ≡ m b)
unfolding strupr_loop
strupr_loop-IsText s zero a i m t lt = absurd (omega arith)
strupr_loop-IsText [] (suc fuel) a i m t lt = (m, rw t, t, λ b out. refl)
strupr_loop-IsText (c ∷ s) (suc fuel) a i m (here, nonzero, t) lt =
    let e : a + i + 1 ≡ a + (i + 1) = omega arith in
    let m1 = update m (a + i) (touppercase c) in
    let (m', run, text, out) =
      strupr_loop-IsText s fuel a (i + 1) m1
        (IsText-same s (a + (i + 1)) m m1 (λ b lo hi. ground arith) (rw (← e) t)) (omega arith) in
    (
      m',
      rw (here, test-nonzero c c refl nonzero) run,
      (out (a + i) (inl (omega arith)) ∙ ground arith, touppercase-nonzero c nonzero, rw e text),
      λ b where_. out b (ground (arith, where_)) ∙ ground (arith, where_),
    )

length-map : (s : List ℕ) → length (map touppercase s) ≡ length s
length-map [] = refl
length-map (c ∷ s) = ap suc (length-map s)

-- strupr of a text, with fuel above its length, ends with the capital of each character in its
-- place, and changes no other byte.
pub strupr-text :
    (s : List ℕ) (fuel a : ℕ) (m : Bytes)
    → IsText s a m
    → length s < fuel
    → (m' : Bytes) × (strupr fuel a m ≡ some m') × Written (map touppercase s) a m m'
unfolding strupr
strupr-text s fuel a m t lt =
    let e : a + 0 ≡ a = omega arith in
    let (m', run, text, out) = strupr_loop-IsText s fuel a 0 m (rw e t) lt in
    (
      m',
      run,
      record {
        text = rw (← e) text;
        outside = λ b where_. out b (ground (arith, where_, length-map s));
      },
    )
