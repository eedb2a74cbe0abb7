-- ===== src/Base.antt =====
-- Names and helpers that every part shares: the libraries' names passed on, Boolean tests,
-- arrays as lists, 32-bit words, single bits, byte memory, and the outcome of kernel code.
mod Tests
mod Lists
mod Word
mod Bits
mod Or
mod Bytes
mod Results
pub use Tests.*
pub use Lists.*
pub use Word.*
pub use Or.*
unfoldable pub use Bits.*
pub use Bytes.*
pub use Results.*
pub use Prim.Native.Nat.{ℕ, zero, suc, ◌+◌, ◌-◌, ◌*◌, ◌/◌, ◌%◌, ◌^◌, ◌≤◌, ◌<◌, min}
pub use Prim.Native.Nat.{bit_and, bit_or, bit_xor}
pub use mathlib.Core.Path.{◌≡◌, refl, sym, ap, subst, ◌∙◌}
pub use mathlib.Core.Logic.{◌≢◌, ◌↔◌, ◌⊎◌, inl, inr}
pub use mathlib.Core.Bool.{Bool, true, false, ◌&&◌, ◌||◌, not}
pub use mathlib.Core.Option.{Option, none, some}
pub use mathlib.Core.List.{List, [], ◌∷◌, ◌++◌}
pub use native.Mathlib.Omega.{arith}
unfoldable pub use native.Mathlib.Decide.{dec_lt, ℕ_discrete}
