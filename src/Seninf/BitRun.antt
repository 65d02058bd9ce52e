-- ===== src/Seninf/BitRun.antt =====
-- What a sequence of accesses does to one bit of each register.
use mt8183_kukui_pmos.Prelude.{
  ℕ, ◌≡◌, refl, sym, ◌∙◌, arith, min, max, bit_and, bit_or, bit_at, bit_at-bit_and, bit_at-bit_or,
  Bool, false, List, [], ◌∷◌, ◌++◌, Bool-cases, inl, inr, ◌||◌,
}
use mt8183_kukui_pmos.Seninf.State.{Reg, Regs, same_reg}
use mt8183_kukui_pmos.Seninf.Access.{Access, write, copy, set_and, delay, writel, run}

-- The same sequence on bit `k` alone.
abbrev pub run_bit : ℕ → List Access → Regs → Regs
run_bit k [] b = b
run_bit k (write to value ∷ rest) b = run_bit k rest (writel (bit_at k value) to b)
run_bit k (copy to from keep set ∷ rest) b =
    run_bit k rest (writel (max (min (bit_at k keep) (b from)) (bit_at k set)) to b)
run_bit k (set_and to set keep ∷ rest) b =
    run_bit k rest (writel (min (max (b to) (bit_at k set)) (bit_at k keep)) to b)
run_bit k (delay us ∷ rest) b = run_bit k rest b

-- `b` holds bit `k` of each register.
abbrev pub IsBit : ℕ → Regs → Regs → Type 0
IsBit k b r = (reg : Reg) → b reg ≡ bit_at k (r reg)

IsBit-writel :
    (k v value : ℕ) (to : Reg) (b r : Regs)
    → v ≡ bit_at k value
    → IsBit k b r
    → IsBit k (writel v to b) (writel value to r)
IsBit-writel k v value to b r e h reg = elim (Bool-cases (same_reg reg to)) [
  | inl yes' ↦ rw yes' e
  | inr no' ↦ rw no' (h reg)
]

-- A run on one bit gives that bit of the run.
pub run_bit-run :
    (k : ℕ) (accesses : List Access) (b r : Regs)
    → IsBit k b r
    → IsBit k (run_bit k accesses b) (run accesses r)
unfolding run
run_bit-run k [] b r h = h
run_bit-run k (write to value ∷ rest) b r h =
    run_bit-run k rest (writel (bit_at k value) to b) (writel value to r)
      (IsBit-writel k (bit_at k value) value to b r refl h)
run_bit-run k (copy to from keep set ∷ rest) b r h =
    let new = bit_or (bit_and keep (r from)) set in
    let e : max (min (bit_at k keep) (b from)) (bit_at k set) ≡ bit_at k new =
      rw (bit_at-bit_or, bit_at-bit_and, h from) in
    run_bit-run k rest (writel (max (min (bit_at k keep) (b from)) (bit_at k set)) to b)
      (writel new to r) (IsBit-writel k _ new to b r e h)
run_bit-run k (set_and to set keep ∷ rest) b r h =
    let new = bit_and (bit_or (r to) set) keep in
    let e : min (max (b to) (bit_at k set)) (bit_at k keep) ≡ bit_at k new =
      rw (bit_at-bit_and, bit_at-bit_or, h to) in
    run_bit-run k rest (writel (min (max (b to) (bit_at k set)) (bit_at k keep)) to b)
      (writel new to r) (IsBit-writel k _ new to b r e h)
run_bit-run k (delay us ∷ rest) b r h = run_bit-run k rest b r h

-- The bits of the registers before.
abbrev pub bits : ℕ → Regs → Regs
bits k r reg = bit_at k (r reg)

pub bit_at-run :
    (k : ℕ) (accesses : List Access) (r : Regs) (reg : Reg)
    → bit_at k (run accesses r reg) ≡ run_bit k accesses (bits k r) reg
bit_at-run k accesses r reg = sym (run_bit-run k accesses (bits k r) r (λ x. refl) reg)

-- Whether a sequence writes a register.
abbrev pub writes : Reg → List Access → Bool
writes reg [] = false
writes reg (write to value ∷ rest) = same_reg reg to || writes reg rest
writes reg (copy to from keep set ∷ rest) = same_reg reg to || writes reg rest
writes reg (set_and to set keep ∷ rest) = same_reg reg to || writes reg rest
writes reg (delay us ∷ rest) = writes reg rest

writel_other :
    (value : ℕ) (to reg : Reg) (r : Regs) → same_reg reg to ≡ false → writel value to r reg ≡ r reg
writel_other value to reg r h = rw h

-- A register that is not written keeps its value.
pub run_other :
    (accesses : List Access) (reg : Reg) (r : Regs)
    → writes reg accesses ≡ false
    → run accesses r reg ≡ r reg
unfolding run
run_other [] reg r h = refl
run_other (write to value ∷ rest) reg r h =
    run_other rest reg (writel value to r) (ground arith)
    ∙ writel_other value to reg r (ground arith)
run_other (copy to from keep set ∷ rest) reg r h =
    run_other rest reg (writel (bit_or (bit_and keep (r from)) set) to r) (ground arith)
    ∙ writel_other (bit_or (bit_and keep (r from)) set) to reg r (ground arith)
run_other (set_and to set keep ∷ rest) reg r h =
    run_other rest reg (writel (bit_and (bit_or (r to) set) keep) to r) (ground arith)
    ∙ writel_other (bit_and (bit_or (r to) set) keep) to reg r (ground arith)
run_other (delay us ∷ rest) reg r h = run_other rest reg r h

pub run-append : (xs ys : List Access) (r : Regs) → run (xs ++ ys) r ≡ run ys (run xs r)
unfolding run
run-append [] ys r = refl
run-append (write to value ∷ xs) ys r = run-append xs ys (writel value to r)
run-append (copy to from keep set ∷ xs) ys r =
    run-append xs ys (writel (bit_or (bit_and keep (r from)) set) to r)
run-append (set_and to set keep ∷ xs) ys r =
    run-append xs ys (writel (bit_and (bit_or (r to) set) keep) to r)
run-append (delay us ∷ xs) ys r = run-append xs ys r
