-- ===== src/Seninf/Access.antt =====
-- Sequences of register accesses, and how they run. The driver's register code is straight, up to
-- conditions that do not depend on registers.
use mt8183_kukui_pmos.Prelude.{ℕ, if◌then◌else◌, Bool, true, false, List, [], ◌∷◌}
use mt8183_kukui_pmos.Prelude.{bit_and, bit_or}
use mt8183_kukui_pmos.Seninf.State.{Reg, Regs, same_reg}

pub data Access : Type 0 where
  -- `writel(value, to)`
  write : (to : Reg) (value : ℕ) → Access
  -- `writel((keep & readl(from)) | set, to)`
  copy : (to from : Reg) (keep set : ℕ) → Access
  -- `writel((readl(to) | set) & keep, to)`
  set_and : (to : Reg) (set keep : ℕ) → Access
  -- `usleep_range`, `udelay`, by the least number of microseconds
  delay : ℕ → Access

-- `writel((keep & readl(to)) | set, to)`
abbrev pub update : Reg → ℕ → ℕ → Access
update to keep set = copy to to keep set

-- `writel(readl(to) | set, to)`
abbrev pub set_bits : Reg → ℕ → Access
set_bits to set = update to 0xffffffff set

-- `writel(keep & readl(to), to)`
abbrev pub keep_bits : Reg → ℕ → Access
keep_bits to keep = update to keep 0

abbrev pub writel : ℕ → Reg → Regs → Regs
writel value to r reg = if same_reg reg to then value else r reg

-- The accesses under an `if`.
abbrev pub when : Bool → List Access → List Access
when true rest = rest
when false rest = []

unfoldable pub run : List Access → Regs → Regs
run [] r = r
run (write to value ∷ rest) r = run rest (writel value to r)
run (copy to from keep set ∷ rest) r = run rest (writel (bit_or (bit_and keep (r from)) set) to r)
run (set_and to set keep ∷ rest) r = run rest (writel (bit_and (bit_or (r to) set) keep) to r)
run (delay us ∷ rest) r = run rest r
