-- ===== src/Interrupts/Other.antt =====
-- kernel/irq/irq.c: the handler of the traps that nothing serves, which prints the trap frame and
-- halts. The frame is the array `regs` of 36 words.
pub mod Report
use ucas_oslab_project.Common.{
  ℕ, zero, suc, ◌+◌, Bool, ◌&&◌, ltb, Option, none, some, List, [], ◌∷◌, if◌then◌else◌,
}
use ucas_oslab_project.LinkedList.{Ptr}

-- The addresses of the string literals.
pub record Literals : Type 0 where
  pub reg_name : ℕ → Ptr
  pub reg_line : Ptr
  pub newline : Ptr
  pub status_line : Ptr
  pub sepc_line : Ptr
  pub tval_line : Ptr
  pub panic_line : Ptr
  pub func_name : Ptr
  pub file_name : Ptr

-- `printk`, of a format and its arguments, acts on a state `S`; `none` is a call that does not return.
-- The state in the result is the one in which `_panic` goes round for ever.
module _ {ℓ} {S : Type ℓ} (printk : (fmt : Ptr) (va : List ℕ) → S → Option S) (t : Literals) where
  -- `assert(0)`, in line 82
  unfoldable pub panic : S → Option S
  panic s = printk t.panic_line (t.func_name ∷ t.file_name ∷ 82 ∷ []) s

  module _ (regs : ℕ → ℕ) where
    -- The inner loop: `rounds` are left.
    unfoldable pub print_row : (rounds i j : ℕ) → S → Option S
    print_row zero i j s = some s
    print_row (suc rounds) i j s =
        if ltb j 3 && ltb (i + j) 32
        then elim (printk t.reg_line (t.reg_name (i + j) ∷ regs (i + j) ∷ []) s) [
          | none ↦ none
          | some s' ↦ print_row rounds i (j + 1) s'
        ]
        else some s

    unfoldable pub print_rows : (rounds i : ℕ) → S → Option S
    print_rows zero i s = some s
    print_rows (suc rounds) i s =
        if ltb i 32
        then elim (print_row 4 i 0 s) [
          | none ↦ none
          | some s1 ↦ elim (printk t.newline [] s1) [
            | none ↦ none
            | some s2 ↦ print_rows rounds (i + 3) s2
          ]
        ]
        else some s

    unfoldable pub handle_other : (stval scause : ℕ) → S → Option S
    handle_other stval scause s = elim (print_rows 12 0 s) [
      | none ↦ none
      | some s1 ↦ elim (printk t.status_line (regs 32 ∷ regs 34 ∷ regs 35 ∷ []) s1) [
        | none ↦ none
        | some s2 ↦ elim (printk t.sepc_line (regs 33 ∷ []) s2) [
          | none ↦ none
          | some s3 ↦ elim (printk t.tval_line (stval ∷ scause ∷ []) s3) [
            | none ↦ none
            | some s4 ↦ panic s4
          ]
        ]
      ]
    ]
