-- ===== src/Tests/ExclusionTests.antt =====
-- Threads that share the lock of kernel/modules/sync/sync.c: thread 0x10 of ThreadsTests takes it.
use bhos.Common.{ℕ, ◌≡◌, refl, some, update, true}
use bhos.Tests.ThreadsTests.{no_pages}
use bhos.Sync.{lock_init, sem_init}
use bhos.Sync.Lock.{lock_acquire-free}
use bhos.Sync.System.{System, outside, returned, Reach, acquire, start, next}
use bhos.Sync.Exclusion.{mutual_exclusion}
use bhos.Tests.SyncTests.{held}

abbrev at_first : System
at_first = record { sync = lock_init held; pc = λ _. outside }

abbrev entered : System
entered = record {
  sync = record (lock_init held) { val = 0; holder = some 0x10 };
  pc = update (λ _. outside) 0x10 (returned true);
}

entered-Reach : Reach no_pages 0x5000 held entered
unfolding lock_init sem_init
entered-Reach = next at_first entered start (
    acquire 0x10 0xB0 true entered.sync refl refl
      (lock_acquire-free no_pages 0x5000 0xB0 0x10 (lock_init held) refl refl refl))

mutual_exclusion_example : ◌≡◌ {A = ℕ} 0x10 0x10
mutual_exclusion_example =
    mutual_exclusion no_pages 0x5000 held entered 0x10 0x10 entered-Reach refl refl
