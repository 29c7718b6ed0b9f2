-- ===== src/Interrupts/Other/Report.antt =====
-- kernel/irq/irq.c with arch/riscv/kernel/entry.S: what `handle_other` prints of a trap.
use ucas_oslab_project.Common.{
  ℕ, zero, suc, ◌+◌, ◌%◌, ◌<◌, ◌≡◌, refl, sym, ap, ◌∙◌, ◌&&◌, ◌||◌, ◌==◌, ltb, Option, none, some,
  List, [], ◌∷◌, ◌++◌, if◌then◌else◌, arith, Bool-cases, inl, inr,
}
use ucas_oslab_project.LinkedList.{Ptr}
use ucas_oslab_project.Interrupts.Other.{Literals, print_row, print_rows, panic, handle_other}
use ucas_oslab_project.Trap.{Hart, Labels, exception_handler_entry}
use ucas_oslab_project.Trap.Return.{
  kernel_sp, exception_handler_entry-HasFrame, exception_handler_entry-unsaved,
}
use ucas_oslab_project.Trap.Calls.{frame_at}

-- Calls of `printk` by format and arguments, and their effect one after the other.
abbrev pub Call : Type 0
Call = Ptr × List ℕ

abbrev pub print_all {ℓ} : {S : Type ℓ} → (Ptr → List ℕ → S → Option S) → List Call → S → Option S
print_all printk [] s = some s
print_all printk ((fmt, va) ∷ calls) s = elim (printk fmt va s) [
  | none ↦ none
  | some s' ↦ print_all printk calls s'
]

-- The lines of the registers: each by its name and value, three to a line.
abbrev pub dump : Literals → (regs : ℕ → ℕ) → (count r : ℕ) → List Call
dump t regs zero r = []
dump t regs (suc count) r =
    (t.reg_line, t.reg_name r ∷ regs r ∷ [])
    ∷ (if r % 3 == 2 || r == 31
        then (t.newline, []) ∷ dump t regs count (r + 1)
        else dump t regs count (r + 1))

-- The whole report.
abbrev pub report :
    Literals → (regs : ℕ → ℕ) → (sstatus sbadaddr scause_word sepc stval scause : ℕ) → List Call
report t regs sstatus sbadaddr scause_word sepc stval scause =
    dump t regs 32 0
    ++ (t.status_line, sstatus ∷ sbadaddr ∷ scause_word ∷ [])
      ∷ (t.sepc_line, sepc ∷ [])
      ∷ (t.tval_line, stval ∷ scause ∷ [])
      ∷ (t.panic_line, t.func_name ∷ t.file_name ∷ 82 ∷ [])
      ∷ []

abbrev and_then : {S : Type 0} → Option S → (S → Option S) → Option S
and_then o f = elim o [ none ↦ none | some s ↦ f s ]

and_then_same :
    {S : Type 0} (o : Option S) {f g : S → Option S}
    → ((s : S) → f s ≡ g s)
    → and_then o f ≡ and_then o g
and_then_same none same = refl
and_then_same (some s) same = same s

and_then_right : {S : Type 0} (o : Option S) → and_then o some ≡ o
and_then_right none = refl
and_then_right (some s) = refl

and_then_then :
    {S : Type 0} (o : Option S) (f g : S → Option S)
    → and_then (and_then o f) g ≡ and_then o (λ s. and_then (f s) g)
and_then_then none f g = refl
and_then_then (some s) f g = refl

module _ {S : Type 0} (printk : Ptr → List ℕ → S → Option S) where
  print_all-append :
      (xs ys : List Call) (s : S)
      → print_all printk (xs ++ ys) s ≡ and_then (print_all printk xs s) (print_all printk ys)
  print_all-append [] ys s = refl
  print_all-append ((fmt, va) ∷ xs) ys s =
      and_then_same (printk fmt va s) (print_all-append xs ys)
      ∙ sym (and_then_then (printk fmt va s) (print_all printk xs) (print_all printk ys))

  module _ (t : Literals) (regs : ℕ → ℕ) where
    row_calls : (rounds i j : ℕ) → List Call
    row_calls zero i j = []
    row_calls (suc rounds) i j =
        let rest = row_calls rounds i (j + 1) in
        if ltb j 3 && ltb (i + j) 32
        then (t.reg_line, t.reg_name (i + j) ∷ regs (i + j) ∷ []) ∷ rest
        else []

    rows_calls : (rounds i : ℕ) → List Call
    rows_calls zero i = []
    rows_calls (suc rounds) i =
        let rest = rows_calls rounds (i + 3) in
        if ltb i 32 then row_calls 4 i 0 ++ (t.newline, []) ∷ rest else []

    print_row-calls :
        (rounds i j : ℕ) (s : S)
        → print_row printk t regs rounds i j s ≡ print_all printk (row_calls rounds i j) s
    unfolding print_row row_calls
    print_row-calls zero i j s = refl
    print_row-calls (suc rounds) i j s = elim (Bool-cases (ltb j 3 && ltb (i + j) 32)) [
      | inl more ↦ rw more (
          and_then_same (printk t.reg_line (t.reg_name (i + j) ∷ regs (i + j) ∷ []) s)
            (print_row-calls rounds i (j + 1)))
      | inr end ↦ rw end refl
    ]

    print_rows-calls :
        (rounds i : ℕ) (s : S)
        → print_rows printk t regs rounds i s ≡ print_all printk (rows_calls rounds i) s
    unfolding print_rows rows_calls
    print_rows-calls zero i s = refl
    print_rows-calls (suc rounds) i s = elim (Bool-cases (ltb i 32)) [
      | inl more ↦ rw more (
          ap
            (λ o.
              and_then o
                (λ s1. and_then (printk t.newline [] s1) (print_rows printk t regs rounds (i + 3))))
            (print_row-calls 4 i 0 s)
          ∙ and_then_same (print_all printk (row_calls 4 i 0) s)
              (λ s1. and_then_same (printk t.newline [] s1) (print_rows-calls rounds (i + 3)))
          ∙ sym
              (print_all-append (row_calls 4 i 0) ((t.newline, []) ∷ rows_calls rounds (i + 3)) s))
      | inr end ↦ rw end refl
    ]

    handle_other-report :
        (stval scause : ℕ) (s : S)
        → handle_other printk t regs stval scause s
          ≡ print_all printk (report t regs (regs 32) (regs 34) (regs 35) (regs 33) stval scause) s
    unfolding handle_other panic row_calls rows_calls
    handle_other-report stval scause s =
        let tail : List Call =
          (t.status_line, regs 32 ∷ regs 34 ∷ regs 35 ∷ [])
          ∷ (t.sepc_line, regs 33 ∷ [])
          ∷ (t.tval_line, stval ∷ scause ∷ [])
          ∷ (t.panic_line, t.func_name ∷ t.file_name ∷ 82 ∷ [])
          ∷ [] in
        let rest : S → Option S = λ s1.
          and_then (printk t.status_line (regs 32 ∷ regs 34 ∷ regs 35 ∷ []) s1) (λ s2.
            and_then (printk t.sepc_line (regs 33 ∷ []) s2)
              (λ s3. and_then (printk t.tval_line (stval ∷ scause ∷ []) s3) (panic printk t))) in
        ap (λ o. and_then o rest) (print_rows-calls 12 0 s)
        ∙ and_then_same (print_all printk (rows_calls 12 0) s) (λ s1.
          and_then_same (printk t.status_line (regs 32 ∷ regs 34 ∷ regs 35 ∷ []) s1) (λ s2.
            and_then_same (printk t.sepc_line (regs 33 ∷ []) s2) (λ s3.
              and_then_same (printk t.tval_line (stval ∷ scause ∷ []) s3)
                (λ s4. sym (and_then_right (panic printk t s4))))))
        ∙ sym (print_all-append (rows_calls 12 0) tail s)

dump_same :
    (t : Literals) (regs regs' : ℕ → ℕ) (count r : ℕ)
    → ((q : ℕ) → q < r + count → regs q ≡ regs' q)
    → dump t regs count r ≡ dump t regs' count r
dump_same t regs regs' zero r same = refl
dump_same t regs regs' (suc count) r same =
    rw (same r (omega arith), dump_same t regs regs' count (r + 1) (λ q lt. same q (omega arith)))

-- The registers of the program that trapped, and in the place of x0 what stood there before.
abbrev pub registers : Hart → ℕ → ℕ
registers h r = if r == 0 then h.mem (kernel_sp h) else h.x r

-- After the entry to a trap, handle_other calls printk, whatever it does, for the 32 registers in
-- their order, three to a line, with the values of the program that trapped and in the place of x0
-- the word that stood there before, then for its sstatus, for the two words that stood behind the
-- saved part of the frame before, as sbadaddr and scause, for its sepc, for stval and scause, and
-- for the failed assertion, and ends in none just if one of these calls does.
pub handle_other-shows :
    {S : Type 0} (printk : Ptr → List ℕ → S → Option S) (t : Literals) (l : Labels) (h : Hart)
    (s : S)
    → handle_other printk t
        (frame_at (exception_handler_entry l h).mem (kernel_sp h))
        h.stval
        h.scause
        s
      ≡ print_all printk
          (report t
            (registers h)
            h.sstatus
            (h.mem (kernel_sp h + 272))
            (h.mem (kernel_sp h + 280))
            h.sepc
            h.stval
            h.scause)
          s
handle_other-shows {S} printk t l h s =
    let regs = frame_at (exception_handler_entry l h).mem (kernel_sp h) in
    let f = exception_handler_entry-HasFrame h l in
    let unsaved = exception_handler_entry-unsaved h l in
    let same : (q : ℕ) → q < 0 + 32 → regs q ≡ registers h q =
      λ q lt. ground (arith, f.reg q, unsaved (kernel_sp h)) in
    let show : List Call → (a b c e : ℕ) → Option S = λ d a b c e.
      print_all printk
        (d
          ++ (t.status_line, a ∷ b ∷ c ∷ [])
            ∷ (t.sepc_line, e ∷ [])
            ∷ (t.tval_line, h.stval ∷ h.scause ∷ [])
            ∷ (t.panic_line, t.func_name ∷ t.file_name ∷ 82 ∷ [])
            ∷ [])
        s in
    let d' = dump t (registers h) 32 0 in
    handle_other-report printk t regs h.stval h.scause s
    ∙ ap (λ d. show d (regs 32) (regs 34) (regs 35) (regs 33))
        (dump_same t regs (registers h) 32 0 same)
    ∙ ap (λ a. show d' a (regs 34) (regs 35) (regs 33)) f.sstatus
    ∙ ap (λ b. show d' h.sstatus b (regs 35) (regs 33))
        (unsaved (kernel_sp h + 272) (inr (omega arith)))
    ∙ ap (λ c. show d' h.sstatus (h.mem (kernel_sp h + 272)) c (regs 33))
        (unsaved (kernel_sp h + 280) (inr (omega arith)))
    ∙ ap (λ e. show d' h.sstatus (h.mem (kernel_sp h + 272)) (h.mem (kernel_sp h + 280)) e) f.sepc
