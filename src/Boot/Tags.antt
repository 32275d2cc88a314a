-- ===== src/Boot/Tags.antt =====
-- The loader's chain of tags.
use cubik_os.Prelude.{
  ℕ, zero, suc, ◌+◌, ◌^◌, ◌≤◌, ◌<◌, ◌≡◌, ◌≢◌, refl, ◌==◌, if◌then◌else◌, List, [], ◌∷◌, ◌++◌,
  length, length-append, arith, ap, ◌∙◌, Bool-cases, subst, ap₂, sym, ==_iff, inl, inr, if_true,
  if_false, dec_lt, true, false,
}
use cubik_os.Boot.Defs.{
  BootGraphic, BootInfo, MmapEntry, Tag, memmap_id, framebuffer_id, memory_map_limit, boot_check,
  parsed, overrun, parse_entries, parse_tag, parse_tags, parse_stivale2_info, with_mem, checked,
}
use cubik_os.Boot.Map.{
  IsMap, extended, extended-none, extended-append, parse_entries_lem, parse_entries-overrun,
}

-- The tags `ts` are linked from the address `p` on, and the last link is NULL.
abbrev pub IsChain : (ℕ → Tag) → ℕ → List Tag → Type 0
IsChain tags p [] = p ≡ 0
IsChain tags p (t ∷ ts) = (p ≢ 0) × (tags p ≡ t) × IsChain tags t.next ts

-- The memory map that a tag gives, and the framebuffer that it leaves.
abbrev pub map_of : Tag → List MmapEntry
map_of t = if t.identifier == memmap_id then t.memmap else []

abbrev pub screen_of : Tag → BootGraphic → BootGraphic
screen_of t old = if t.identifier == framebuffer_id then t.framebuffer else old

-- The memory maps of the chain, one behind the other, and its last framebuffer.
abbrev pub maps : List Tag → List MmapEntry
maps [] = []
maps (t ∷ ts) = map_of t ++ maps ts

abbrev pub screen : List Tag → BootGraphic → BootGraphic
screen [] old = old
screen (t ∷ ts) old = screen ts (screen_of t old)

IsMap-append : (xs ys : List MmapEntry) → IsMap (xs ++ ys) → IsMap xs × IsMap ys
IsMap-append [] ys h = (tt, h)
IsMap-append (x ∷ xs) ys (word, h) = let both = IsMap-append xs ys h in ((word, (both).0), (both).1)

-- What one tag adds.
abbrev added : Tag → BootInfo → BootInfo
added t info = record info {
  mem = extended info.mem (map_of t);
  graphic = screen_of t info.graphic;
}

module _ (t : Tag) (info : BootInfo) where
  is_memmap : (t.identifier == memmap_id) ≡ true → (t.identifier == framebuffer_id) ≡ false
  is_memmap h = let e : t.identifier ≡ memmap_id = (==_iff t.identifier memmap_id).0 h in rw e refl

  parse_tag-memmap :
      (t.identifier == memmap_id) ≡ true
      → parse_tag t info ≡ with_mem info (parse_entries t.memmap info.mem)
  unfolding parse_tag
  parse_tag-memmap h = rw h refl

  parse_tag-other :
      (t.identifier == memmap_id) ≡ false
      → parse_tag t info ≡ parsed (record info { graphic = screen_of t info.graphic })
  unfolding parse_tag
  parse_tag-other h = elim (Bool-cases (t.identifier == framebuffer_id)) [
    | inl is ↦ rw (h, is) refl
    | inr not ↦ rw (h, not) refl
  ]

  parse_tag_lem :
      IsMap (map_of t)
      → info.mem.total_size < 2 ^ 64
      → info.mem.usable < 2 ^ 64
      → info.mem.map_size + length (map_of t) ≤ memory_map_limit
      → parse_tag t info ≡ parsed (added t info)
  parse_tag_lem is_map total_word usable_word room = elim (Bool-cases (t.identifier == memmap_id)) [
    | inl is ↦
        let own = if_true (t.identifier == memmap_id) t.memmap [] is in
        let kept =
          if_false (t.identifier == framebuffer_id) t.framebuffer info.graphic (is_memmap is) in
        parse_tag-memmap is
        ∙ ap (with_mem info) (
            parse_entries_lem t.memmap info.mem (subst IsMap own is_map) total_word usable_word
              (subst (λ es. info.mem.map_size + length es ≤ memory_map_limit) own room))
        ∙ ap₂ (λ es g. parsed (record info { mem = extended info.mem es; graphic = g })) (sym own)
            (sym kept)
    | inr other ↦
        let own = if_false (t.identifier == memmap_id) t.memmap [] other in
        parse_tag-other other
        ∙ ap (λ mem. parsed (record info { mem = mem; graphic = screen_of t info.graphic }))
            (sym (extended-none info.mem total_word usable_word) ∙ ap (extended info.mem) (sym own))
  ]

  parse_tag-overrun :
      IsMap (map_of t)
      → info.mem.map_size ≤ memory_map_limit
      → memory_map_limit < info.mem.map_size + length (map_of t)
      → parse_tag t info ≡ overrun
  parse_tag-overrun is_map le gt = elim (Bool-cases (t.identifier == memmap_id)) [
    | inl is ↦
        let own = if_true (t.identifier == memmap_id) t.memmap [] is in
        parse_tag-memmap is
        ∙ ap (with_mem info) (
            parse_entries-overrun t.memmap info.mem (subst IsMap own is_map) le
              (subst (λ es. memory_map_limit < info.mem.map_size + length es) own gt))
    | inr other ↦
        let own = if_false (t.identifier == memmap_id) t.memmap [] other in
        absurd (omega (arith, ap length own))
  ]

-- A round of the walk, and its end.
module _ (tags : ℕ → Tag) (p n : ℕ) (info : BootInfo) where
  abbrev Next : Tag → Type 0
  Next t =
      (next : BootInfo)
      → parse_tag t info ≡ parsed next
      → parse_tags (suc n) tags p info ≡ parse_tags n tags t.next next

  abbrev Stop : Tag → Type 0
  Stop t = parse_tag t info ≡ overrun → parse_tags (suc n) tags p info ≡ overrun

  parse_tags-Next : p ≢ 0 → (t : Tag) → tags p ≡ t → Next t
  unfolding parse_tags
  parse_tags-Next ne t here =
      subst Next here (λ next run. if_false (p == 0) _ _ (ground arith) ∙ rw run refl)

  parse_tags-Stop : p ≢ 0 → (t : Tag) → tags p ≡ t → Stop t
  unfolding parse_tags
  parse_tags-Stop ne t here =
      subst Stop here (λ run. if_false (p == 0) _ _ (ground arith) ∙ rw run refl)

  parse_tags-end : p ≡ 0 → parse_tags (suc n) tags p info ≡ parsed info
  unfolding parse_tags
  parse_tags-end null = if_true (p == 0) _ _ (ground arith)

parse_tags_lem :
    (tags : ℕ → Tag) (ts : List Tag) (p n : ℕ) (info : BootInfo)
    → IsChain tags p ts
    → length ts < n
    → IsMap (maps ts)
    → info.mem.total_size < 2 ^ 64
    → info.mem.usable < 2 ^ 64
    → info.mem.map_size + length (maps ts) ≤ memory_map_limit
    → parse_tags n tags p info
      ≡ parsed (record info { mem = extended info.mem (maps ts); graphic = screen ts info.graphic })
parse_tags_lem tags ts p zero info chain fuel is_map tw uw room = absurd (omega arith)
parse_tags_lem tags [] p (suc n) info chain fuel is_map tw uw room =
    parse_tags-end tags p n info chain
    ∙ ap (λ mem. parsed (record info { mem = mem })) (sym (extended-none info.mem tw uw))
parse_tags_lem tags (t ∷ ts) p (suc n) info (ne, here, chain) fuel is_map tw uw room =
    let both = IsMap-append (map_of t) (maps ts) is_map in
    let sizes = length-append (map_of t) (maps ts) in
    parse_tags-Next tags p n info ne t here (added t info)
      (parse_tag_lem t info (both).0 tw uw (omega (arith, sizes)))
    ∙ parse_tags_lem tags ts t.next n (added t info) chain (omega arith) (both).1 (omega arith)
        (omega arith) (omega (arith, sizes))
    ∙ ap (λ mem. parsed (record info { mem = mem; graphic = screen ts (screen_of t info.graphic) }))
        (extended-append (map_of t) (maps ts) info.mem tw uw)

-- A chain of tags from `first` whose memory maps fit the kernel's array of 64 entries behind those
-- that it has is parsed, on more fuel than it has tags: the kernel's map is extended by all entries
-- in their order, the framebuffer is the last one of the chain, and the check is set.
pub parse_stivale2_info-IsChain :
    (tags : ℕ → Tag) (ts : List Tag) (first fuel : ℕ) (info : BootInfo)
    → IsChain tags first ts
    → length ts < fuel
    → IsMap (maps ts)
    → info.mem.total_size < 2 ^ 64
    → info.mem.usable < 2 ^ 64
    → info.mem.map_size + length (maps ts) ≤ memory_map_limit
    → parse_stivale2_info fuel tags first info
      ≡ parsed (record {
        check = boot_check;
        mem = extended info.mem (maps ts);
        graphic = screen ts info.graphic;
      })
unfolding parse_stivale2_info
parse_stivale2_info-IsChain tags ts first fuel info chain enough is_map tw uw room =
    ap checked (parse_tags_lem tags ts first fuel info chain enough is_map tw uw room)

parse_tags-overrun :
    (tags : ℕ → Tag) (ts : List Tag) (p n : ℕ) (info : BootInfo)
    → IsChain tags p ts
    → length ts < n
    → IsMap (maps ts)
    → info.mem.total_size < 2 ^ 64
    → info.mem.usable < 2 ^ 64
    → info.mem.map_size ≤ memory_map_limit
    → memory_map_limit < info.mem.map_size + length (maps ts)
    → parse_tags n tags p info ≡ overrun
parse_tags-overrun tags ts p zero info chain fuel is_map tw uw le gt = absurd (omega arith)
parse_tags-overrun tags [] p (suc n) info chain fuel is_map tw uw le gt = absurd (omega arith)
parse_tags-overrun tags (t ∷ ts) p (suc n) info (ne, here, chain) fuel is_map tw uw le gt =
    let both = IsMap-append (map_of t) (maps ts) is_map in
    let sizes = length-append (map_of t) (maps ts) in
    elim (dec_lt memory_map_limit (info.mem.map_size + length (map_of t))) [
      | yes over ↦
          parse_tags-Stop tags p n info ne t here (parse_tag-overrun t info (both).0 le over)
      | no fits ↦
          parse_tags-Next tags p n info ne t here (added t info)
            (parse_tag_lem t info (both).0 tw uw (omega arith))
          ∙ parse_tags-overrun tags ts t.next n (added t info) chain (omega arith) (both).1
              (omega arith) (omega arith) (omega arith) (omega (arith, sizes))
    ]

-- A chain of tags whose memory maps have more entries than the kernel's array has room for is
-- written behind the array's end.
pub parse_stivale2_info-overrun :
    (tags : ℕ → Tag) (ts : List Tag) (first fuel : ℕ) (info : BootInfo)
    → IsChain tags first ts
    → length ts < fuel
    → IsMap (maps ts)
    → info.mem.total_size < 2 ^ 64
    → info.mem.usable < 2 ^ 64
    → info.mem.map_size ≤ memory_map_limit
    → memory_map_limit < info.mem.map_size + length (maps ts)
    → parse_stivale2_info fuel tags first info ≡ overrun
unfolding parse_stivale2_info
parse_stivale2_info-overrun tags ts first fuel info chain enough is_map tw uw le gt =
    ap checked (parse_tags-overrun tags ts first fuel info chain enough is_map tw uw le gt)
