-- ===== src/Lock/Tests.antt =====
-- Two processors: the first one takes the lock, and the second one finds it taken.
use cubik_os.Prelude.{update, arith, refl}
use cubik_os.Lock.Defs.{
  exchange, testing, waiting, holding, call, xchg, jz, fall, System, step, Reach, start, next,
  unused,
}
use cubik_os.Lock.Exclusion.{IsSound, Reach-IsSound}

abbrev first_holds : System
first_holds = record {
  word = 1;
  pcs = update (update (update unused.pcs 0 (exchange 1)) 0 (testing 0)) 0 holding;
}

first_holds_reached : Reach unused first_holds
first_holds_reached = next (next (next start (step 0 call)) (step 0 xchg)) (step 0 (jz refl))

abbrev second_waits : System
second_waits = record {
  word = 1;
  pcs = update (update (update first_holds.pcs 1 (exchange 1)) 1 (testing 1)) 1 (waiting 1);
}

second_waits_reached : Reach unused second_waits
second_waits_reached =
    next (next (next first_holds_reached (step 1 call)) (step 1 xchg)) (step 1 (fall (omega arith)))

Reach-IsSound_example : IsSound second_waits
Reach-IsSound_example = Reach-IsSound second_waits second_waits_reached
