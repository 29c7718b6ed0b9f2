-- ===== src/Bios/Jump.antt =====
-- include/os/kernel.h and `init_jmptab` of init/main.c: the calls of the firmware that go through the
-- jump table.
use ucas_oslab_project.Common.{ℕ, ◌%◌, Option, none, some}
use ucas_oslab_project.LinkedList.{update}
use ucas_oslab_project.Bios.{
  BiosFunc, to_int, port_write, port_write_ch, port_read_ch, sd_read, sd_write, qemu_logging,
  set_timer, read_fdt,
}

-- What the table points to: the firmware's functions, and the kernel's.
pub data Entry : Type 0 where
  to_port_write : Entry
  to_port_write_ch : Entry
  to_port_read_ch : Entry
  to_sd_read : Entry
  to_sd_write : Entry
  to_qemu_logging : Entry
  to_set_timer : Entry
  to_read_fdt : Entry
  to_screen_move_cursor : Entry
  to_printk : Entry
  to_do_scheduler : Entry
  to_do_mutex_lock_init : Entry
  to_do_mutex_lock_acquire : Entry
  to_do_mutex_lock_release : Entry
  to_screen_write : Entry
  to_screen_reflush : Entry
  to_do_sleep : Entry
  to_get_time_base : Entry
  to_get_ticks : Entry

abbrev pub Table : Type 0
Table = ℕ → Option Entry

abbrev pub set_entry : ℕ → Entry → Table → Table
set_entry n f t = update t n (some f)

unfoldable pub init_jmptab : Table → Table
init_jmptab t =
    let t1 = set_entry 0 to_port_write t in
    let t2 = set_entry 1 to_port_write_ch t1 in
    let t3 = set_entry 2 to_port_read_ch t2 in
    let t4 = set_entry 3 to_sd_read t3 in
    let t5 = set_entry 4 to_sd_write t4 in
    let t6 = set_entry 5 to_qemu_logging t5 in
    let t7 = set_entry 6 to_set_timer t6 in
    let t8 = set_entry 7 to_read_fdt t7 in
    let t9 = set_entry 8 to_screen_move_cursor t8 in
    let t10 = set_entry 9 to_printk t9 in
    let t11 = set_entry 10 to_do_scheduler t10 in
    let t12 = set_entry 11 to_do_mutex_lock_init t11 in
    let t13 = set_entry 12 to_do_mutex_lock_acquire t12 in
    let t14 = set_entry 13 to_do_mutex_lock_release t13 in
    let t15 = set_entry 15 to_screen_write t14 in
    let t16 = set_entry 16 to_screen_reflush t15 in
    let t17 = set_entry 17 to_do_sleep t16 in
    let t18 = set_entry 18 to_get_time_base t17 in set_entry 19 to_get_ticks t18

-- What a call of an entry does: its parameters narrow the arguments, and the result of a function
-- without one is never read. The kernel's own functions are `kernel`; `none` is a jump to nowhere.
module _ {S : Type 0} (bios_func : BiosFunc S)
    (kernel : Entry → (arg0 arg1 arg2 arg3 arg4 : ℕ) → S → Option (ℕ × S)) where
  enter : Entry → (arg0 arg1 arg2 arg3 arg4 : ℕ) → S → Option (ℕ × S)
  enter to_port_write a0 a1 a2 a3 a4 s = some (0, port_write bios_func a0 s)
  enter to_port_write_ch a0 a1 a2 a3 a4 s = some (0, port_write_ch bios_func (a0 % 256) s)
  enter to_port_read_ch a0 a1 a2 a3 a4 s = some (port_read_ch bios_func s)
  enter to_sd_read a0 a1 a2 a3 a4 s = some (sd_read bios_func (to_int a0) (to_int a1) (to_int a2) s)
  enter to_sd_write a0 a1 a2 a3 a4 s =
      some (sd_write bios_func (to_int a0) (to_int a1) (to_int a2) s)
  enter to_qemu_logging a0 a1 a2 a3 a4 s = some (0, qemu_logging bios_func a0 s)
  enter to_set_timer a0 a1 a2 a3 a4 s = some (0, set_timer bios_func a0 s)
  enter to_read_fdt a0 a1 a2 a3 a4 s = some (read_fdt bios_func a0 s)
  enter f a0 a1 a2 a3 a4 s = kernel f a0 a1 a2 a3 a4 s

  unfoldable pub call_jmptab : Table → (which arg0 arg1 arg2 arg3 arg4 : ℕ) → S → Option (ℕ × S)
  unfolding enter
  call_jmptab t which a0 a1 a2 a3 a4 s = elim (t which) [
    | none ↦ none
    | some f ↦ enter f a0 a1 a2 a3 a4 s
  ]

  -- The state after a call whose result is dropped.
  abbrev done : Option (ℕ × S) → Option S
  done none = none
  done (some (r, s)) = some s

  abbrev int_result : Option (ℕ × S) → Option (ℕ × S)
  int_result none = none
  int_result (some (r, s)) = some (to_int r, s)

  unfoldable pub bios_putstr : Table → (str : ℕ) → S → Option S
  bios_putstr t str s = done (call_jmptab t 0 str 0 0 0 0 s)

  unfoldable pub bios_putchar : Table → (ch : ℕ) → S → Option S
  bios_putchar t ch s = done (call_jmptab t 1 ch 0 0 0 0 s)

  unfoldable pub bios_getchar : Table → S → Option (ℕ × S)
  bios_getchar t s = int_result (call_jmptab t 2 0 0 0 0 0 s)

  unfoldable pub bios_sd_read :
      Table → (mem_address num_of_blocks block_id : ℕ) → S → Option (ℕ × S)
  bios_sd_read t mem_address num_of_blocks block_id s =
      int_result (call_jmptab t 3 mem_address num_of_blocks block_id 0 0 s)

  unfoldable pub bios_sd_write :
      Table → (mem_address num_of_blocks block_id : ℕ) → S → Option (ℕ × S)
  bios_sd_write t mem_address num_of_blocks block_id s =
      int_result (call_jmptab t 4 mem_address num_of_blocks block_id 0 0 s)

  unfoldable pub bios_logging : Table → (str : ℕ) → S → Option S
  bios_logging t str s = done (call_jmptab t 5 str 0 0 0 0 s)

  unfoldable pub bios_set_timer : Table → (stime_value : ℕ) → S → Option S
  bios_set_timer t stime_value s = done (call_jmptab t 6 stime_value 0 0 0 0 s)

  unfoldable pub bios_read_fdt : Table → (type : ℕ) → S → Option (ℕ × S)
  bios_read_fdt t type s = call_jmptab t 7 type 0 0 0 0 s
