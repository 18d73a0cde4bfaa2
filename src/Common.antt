-- ===== src/Common.antt =====
-- Names that all modules share: the libraries' names passed on, Boolean tests, lists with native
-- lengths, machine words, and stores that are functions of an address.
mod Tests
mod Lists
mod Words
mod Store
mod State
mod Bits
pub use Tests.*
pub use Lists.*
pub use Words.*
pub use Store.*
pub use State.*
pub use Bits.{at_below, bit_and_low, bit_and_high, bit_or_sum, bit_and_mask, bit_or_one}
unfoldable pub use Bits.{all_below}
pub use Prim.Native.Nat.{ℕ, zero, suc, ◌+◌, ◌-◌, ◌*◌, ◌/◌, ◌%◌, ◌^◌, ◌≤◌, ◌<◌, min, bit_and, bit_or}
pub use mathlib.Core.Path.{◌≡◌, refl, sym, ap, ◌∙◌}
pub use mathlib.Core.Logic.{◌≢◌, ◌⊎◌, inl, inr}
pub use mathlib.Core.Bool.{Bool, true, false, not, ◌&&◌, ◌||◌}
pub use mathlib.Core.Option.{Option, none, some}
pub use mathlib.Core.List.{List, [], ◌∷◌, ◌++◌}
pub use native.Mathlib.Omega.{arith}
