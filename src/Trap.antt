-- ===== src/Trap.antt =====
-- arch/riscv/kernel/entry.S: the entry and the exit of a trap, instruction by instruction. Register
-- `i` is `x i`; the memory is a function from addresses to double words.
pub mod Frame
pub mod Calls
pub mod Return
pub mod Start
use ucas_oslab_project.Common.{ℕ, zero, suc, ◌+◌, ◌-◌, ◌*◌, ◌^◌, List, [], ◌∷◌}
use ucas_oslab_project.LinkedList.{Ptr, update}

pub record Hart : Type 0 where
  pub x : ℕ → ℕ
  pub mem : Ptr → ℕ
  pub pc : ℕ
  pub sscratch : ℕ
  pub sepc : ℕ
  pub sstatus : ℕ
  pub stval : ℕ
  pub scause : ℕ

-- `li`, `mv` and `csrr`, `sd` and `ld` with an offset from a register.
abbrev pub set_reg : (rd value : ℕ) → Hart → Hart
set_reg rd value h = record h { x = update h.x rd value }

abbrev pub sd : (rs offset base : ℕ) → Hart → Hart
sd rs offset base h = record h { mem = update h.mem (h.x base + offset) (h.x rs) }

abbrev pub ld : (rd offset base : ℕ) → Hart → Hart
ld rd offset base h = set_reg rd (h.mem (h.x base + offset)) h

abbrev pub ra : ℕ
ra = 1

abbrev pub sp : ℕ
sp = 2

abbrev pub tp : ℕ
tp = 4

abbrev pub t0 : ℕ
t0 = 5

abbrev pub t1 : ℕ
t1 = 6

abbrev pub a0 : ℕ
a0 = 10

-- The slot of register `r` in a frame.
abbrev pub slot : ℕ → ℕ
slot r = 8 * r

abbrev pub offset_sstatus : ℕ
offset_sstatus = 256

abbrev pub offset_sepc : ℕ
offset_sepc = 264

abbrev pub pcb_kernel_sp : ℕ
pcb_kernel_sp = 0

-- The registers from s2 to t6, and those from a0 on.
abbrev pub upper_regs : List ℕ
upper_regs = 18 ∷ 19 ∷ 20 ∷ 21 ∷ 22 ∷ 23 ∷ 24 ∷ 25 ∷ 26 ∷ 27 ∷ 28 ∷ 29 ∷ 30 ∷ 31 ∷ []

abbrev pub argument_regs : List ℕ
argument_regs = 8 ∷ 9 ∷ 10 ∷ 11 ∷ 12 ∷ 13 ∷ 14 ∷ 15 ∷ 16 ∷ 17 ∷ upper_regs

-- All but x0 and sp, in the order of the stores; and without t1, in that of the loads.
abbrev pub saved_regs : List ℕ
saved_regs = 1 ∷ 3 ∷ 4 ∷ 5 ∷ 6 ∷ 7 ∷ argument_regs

abbrev pub loaded_regs : List ℕ
loaded_regs = 1 ∷ 3 ∷ 4 ∷ 5 ∷ 7 ∷ argument_regs

unfoldable pub sd_all : List ℕ → Hart → Hart
sd_all [] h = h
sd_all (r ∷ rs) h = sd_all rs (sd r (slot r) sp h)

unfoldable pub ld_all : List ℕ → Hart → Hart
ld_all [] h = h
ld_all (r ∷ rs) h = ld_all rs (ld r (slot r) sp h)

-- `SR_SUM | SR_FS`
abbrev pub sr_sum_fs : ℕ
sr_sum_fs = 0x40000 + 0x6000

unfoldable pub save_context : Hart → Hart
save_context h =
    let h1 = record h { sscratch = h.x sp } in
    let h2 = ld sp pcb_kernel_sp tp h1 in
    let h3 = sd_all saved_regs h2 in
    let h4 = set_reg t0 sr_sum_fs h3 in
    let h5 = sd t1 (slot sp) sp (set_reg t1 h4.sscratch h4) in
    let h6 = sd t1 offset_sepc sp (set_reg t1 h5.sepc h5) in
    let h7 = sd t1 offset_sstatus sp (set_reg t1 h6.sstatus h6) in record h7 { sstatus = h7.x t0 }

unfoldable pub restore_context : Hart → Hart
restore_context h =
    let h1 = ld_all loaded_regs h in
    let h2 = ld t1 offset_sepc sp h1 in
    let h3 = record h2 { sepc = h2.x t1 } in
    let h4 = ld t1 offset_sstatus sp h3 in
    let h5 = record h4 { sstatus = h4.x t1 } in
    let h6 = ld t1 (slot t1) sp h5 in let h7 = sd sp pcb_kernel_sp tp h6 in ld sp (slot sp) sp h7

-- `sret` goes on at `sepc`; the change of the mode is left to the hardware.
abbrev pub sret : Hart → Hart
sret h = record h { pc = h.sepc }

unfoldable pub ret_from_exception : Hart → Hart
ret_from_exception h = sret (restore_context h)

-- The addresses of `ret_from_exception` and `interrupt_helper`.
pub record Labels : Type 0 where
  pub ret_from_exception : Ptr
  pub interrupt_helper : Ptr

unfoldable pub exception_handler_entry : Labels → Hart → Hart
exception_handler_entry l h =
    let h1 = save_context h in
    let h2 = set_reg ra l.ret_from_exception h1 in
    let h3 = set_reg a0 (h2.x sp) h2 in
    let h4 = set_reg 11 h3.stval h3 in
    let h5 = set_reg 12 h4.scause h4 in record h5 { pc = l.interrupt_helper }
