-- ===== src/Boot/Tests.antt =====
-- A loader's chain of two tags, and a memory map of 65 entries.
use cubik_os.Prelude.{ℕ, zero, suc, ◌≡◌, refl, ◌==◌, if◌then◌else◌, List, [], ◌∷◌, arith}
use cubik_os.Boot.Defs.{
  BootGraphic, BootInfo, MmapEntry, Tag, memmap_id, framebuffer_id, boot_check, parsed, overrun,
  parse_stivale2_info,
}
use cubik_os.Boot.Map.{IsMap, extended}
use cubik_os.Boot.Tags.{parse_stivale2_info-IsChain, parse_stivale2_info-overrun}

abbrev dark : BootGraphic
dark = record { width = 0; height = 0; buffer_address = 0; pitch = 0; bytes_per_pixel = 0 }

abbrev wide : BootGraphic
wide = record {
  width = 1024;
  height = 768;
  buffer_address = 0xFD000000;
  pitch = 4096;
  bytes_per_pixel = 32;
}

abbrev low_memory : MmapEntry
low_memory = record { base = 0x1000; length = 0x9E000; type = 1 }

abbrev kernel_memory : MmapEntry
kernel_memory = record { base = 0x100000; length = 0x80000; type = 0x1001 }

abbrev map_tag : Tag
map_tag = record {
  identifier = memmap_id;
  next = 200;
  memmap = low_memory ∷ kernel_memory ∷ [];
  framebuffer = dark;
}

abbrev screen_tag : Tag
screen_tag = record { identifier = framebuffer_id; next = 0; memmap = []; framebuffer = wide }

abbrev tags_at : ℕ → Tag
tags_at p = if p == 100 then map_tag else screen_tag

abbrev blank : BootInfo
blank = record {
  check = 0;
  mem = record {
    total_size = 0;
    usable = 0;
    map_size = 0;
    entries = λ _. record { range = record { start = 0; stop = 0 }; type = 0 };
  };
  graphic = dark;
}

parse_stivale2_info-IsChain_example :
    parse_stivale2_info 3 tags_at 100 blank
    ≡ parsed (record {
      check = boot_check;
      mem = extended blank.mem (low_memory ∷ kernel_memory ∷ []);
      graphic = wide;
    })
parse_stivale2_info-IsChain_example =
    parse_stivale2_info-IsChain tags_at (map_tag ∷ screen_tag ∷ []) 100 3 blank
      (omega arith, refl, (omega arith, refl, refl)) (omega arith) (omega arith, (omega arith, tt))
      (omega arith) (omega arith) (omega arith)

abbrev copies : ℕ → List MmapEntry
copies zero = []
copies (suc n) = low_memory ∷ copies n

copies-IsMap : (n : ℕ) → IsMap (copies n)
copies-IsMap zero = tt
copies-IsMap (suc n) = (omega arith, copies-IsMap n)

abbrev long_tag : Tag
long_tag = record { identifier = memmap_id; next = 0; memmap = copies 65; framebuffer = dark }

parse_stivale2_info-overrun_example : parse_stivale2_info 2 (λ _. long_tag) 100 blank ≡ overrun
parse_stivale2_info-overrun_example =
    parse_stivale2_info-overrun (λ _. long_tag) (long_tag ∷ []) 100 2 blank
      ((omega arith), refl, refl) (omega arith) (copies-IsMap 65) (omega arith) (omega arith)
      (omega arith) (omega arith)
