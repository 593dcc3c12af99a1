-- ===== src/Prelude/Mod.antt =====
-- Remainders of numbers that are near each other, for the rings of buffers.
use Prim.Native.Nat.{ℕ, ◌+◌, ◌-◌, ◌%◌, ◌<◌, ◌≤◌}
use mathlib.Core.Path.{◌≡◌, sym, ◌∙◌}
use mathlib.Core.Logic.{◌≢◌, inl, inr}
use native.Mathlib.Nat.{mod-add-mod, mod-eq-sub-mod, mod-eq_of_lt, mod-lt}
use native.Mathlib.Omega.{arith}
use file_transfer_cmd.Prelude.Tests.{ltb, ltb→lt, Bool-cases}

pub mod_apart : (k d n : ℕ) → 0 < d → d < n → k % n ≢ (k + d) % n
mod_apart k d n lo hi e =
    let same : k % n ≡ (k % n + d) % n = e ∙ sym (mod-add-mod k n d) in
    let low : k % n < n = mod-lt k {m = n} (omega arith) in
    elim (Bool-cases (ltb (k % n + d) n)) [
      | inl less ↦ omega (arith, same ∙ mod-eq_of_lt (ltb→lt _ _ less))
      | inr more ↦
          let over : n ≤ k % n + d = ground arith in
          let under : k % n + d - n < n = omega arith in
          omega (arith, same ∙ mod-eq-sub-mod over ∙ mod-eq_of_lt under)
    ]
