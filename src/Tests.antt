-- ===== src/Tests.antt =====
-- Concrete runs of the definitions, and the theorems at concrete inputs.
mod PmmTests
mod BitmapTests
mod ThreadsTests
mod VmmTests
mod SyncTests
mod LinkTests
mod InterruptTests
mod TssTests
mod VgaTests
mod StringsTests
mod SetupTests
mod EntryTests
mod ExclusionTests
mod FormatTests
mod LogTests
mod UserTests
mod TasksTests
mod PrintkTests
