-- ===== src/Bios.antt =====
-- arch/riscv/bios/common.c: the firmware's entry point is `bios_func`, with its eight arguments. An
-- `int` is a number below 2 ^ 32 here, a `long` one below 2 ^ 64.
pub mod Jump
pub mod Reach
use ucas_oslab_project.Common.{ℕ, ◌%◌, ◌^◌}

abbrev pub to_int : ℕ → ℕ
to_int n = n % 2 ^ 32

-- A call of the firmware: eight arguments, the last of them the number of the service.
abbrev pub BiosFunc : Type 0 → Type 0
BiosFunc S = ℕ → ℕ → ℕ → ℕ → ℕ → ℕ → ℕ → ℕ → S → ℕ × S

module _ {S : Type 0} (bios_func : BiosFunc S) where
  unfoldable pub call_bios : (which arg0 arg1 arg2 arg3 arg4 : ℕ) → S → ℕ × S
  call_bios which arg0 arg1 arg2 arg3 arg4 s = bios_func arg0 arg1 arg2 arg3 arg4 0 0 which s

  unfoldable pub port_write_ch : (ch : ℕ) → S → S
  port_write_ch ch s = (call_bios 1 ch 0 0 0 0 s).1

  unfoldable pub port_write : (str : ℕ) → S → S
  port_write str s = (call_bios 9 str 0 0 0 0 s).1

  unfoldable pub port_read_ch : S → ℕ × S
  port_read_ch s = let (r, s') = call_bios 2 0 0 0 0 0 s in (to_int r, s')

  unfoldable pub sd_read : (mem_address num_of_blocks block_id : ℕ) → S → ℕ × S
  sd_read mem_address num_of_blocks block_id s =
      let (r, s') = call_bios 11 mem_address num_of_blocks block_id 0 0 s in (to_int r, s')

  unfoldable pub sd_write : (mem_address num_of_blocks block_id : ℕ) → S → ℕ × S
  sd_write mem_address num_of_blocks block_id s =
      let (r, s') = call_bios 10 mem_address num_of_blocks block_id 0 0 s in (to_int r, s')

  unfoldable pub set_timer : (stime_value : ℕ) → S → S
  set_timer stime_value s = (call_bios 0 stime_value 0 0 0 0 s).1

  unfoldable pub read_fdt : (type : ℕ) → S → ℕ × S
  read_fdt type s = call_bios 12 type 0 0 0 0 s

  unfoldable pub qemu_logging : (str : ℕ) → S → S
  qemu_logging str s = (call_bios 14 str 0 0 0 0 s).1
