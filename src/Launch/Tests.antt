-- ===== src/Launch/Tests.antt =====
-- CPUID on a processor that names itself AuthenticAMD.
use cubik_os.Prelude.{ℕ, ◌==◌, if◌then◌else◌}
use cubik_os.Launch.Defs.{Registers}

abbrev instruction : ℕ → Registers
instruction leaf =
    if leaf == 0
    then record { ebx = 0x68747541; ecx = 0x444D4163; edx = 0x69746E65 }
    else record { ebx = 0; ecx = 0; edx = 0x200 }
