-- ===== src/Bios/Reach.antt =====
-- include/os/kernel.h: once `init_jmptab` has run, the kernel's calls reach the firmware.
use ucas_oslab_project.Common.{ℕ, ◌%◌, ◌^◌, ◌<◌, ◌≡◌, refl, ap, Option, some, arith}
use ucas_oslab_project.Bios.{
  BiosFunc, to_int, call_bios, port_write, port_write_ch, port_read_ch, sd_read, sd_write,
  qemu_logging, set_timer, read_fdt,
}
use ucas_oslab_project.Bios.Jump.{
  Entry, Table, init_jmptab, call_jmptab, bios_putstr, bios_putchar, bios_getchar, bios_sd_read,
  bios_sd_write, bios_logging, bios_set_timer, bios_read_fdt,
}

-- The firmware's service number `which` is asked for with these arguments.
abbrev pub asks : {S : Type 0} (bios_func : BiosFunc S) (which arg0 arg1 arg2 : ℕ) → S → ℕ × S
asks bios_func which arg0 arg1 arg2 s = bios_func arg0 arg1 arg2 0 0 0 0 which s

to_int-twice : (r : ℕ) → to_int (to_int r) ≡ to_int r
to_int-twice r = omega arith

int-low : (n : ℕ) → n < 2 ^ 32 → to_int n ≡ n
int-low n h = omega arith

-- Once init_jmptab has run, whatever the table had before, each of the eight bios_ calls, with
-- arguments below 2^32, asks the firmware for the service of its number with these arguments (a
-- character narrowed to a byte), and returns its answer, narrowed to an int where the call returns
-- one.
pub init_jmptab-reaches :
    {S : Type 0} (bios_func : BiosFunc S) (kernel : Entry → ℕ → ℕ → ℕ → ℕ → ℕ → S → Option (ℕ × S))
    (t : Table) (a b c : ℕ) (s : S)
    → a < 2 ^ 32
    → b < 2 ^ 32
    → c < 2 ^ 32
    → let jmptab = init_jmptab t in
      (bios_putstr bios_func kernel jmptab a s ≡ some (asks bios_func 9 a 0 0 s).1)
      × (bios_putchar bios_func kernel jmptab a s ≡ some (asks bios_func 1 (a % 256) 0 0 s).1)
      × (bios_getchar bios_func kernel jmptab s
          ≡ some (to_int (asks bios_func 2 0 0 0 s).0, (asks bios_func 2 0 0 0 s).1))
      × (bios_sd_read bios_func kernel jmptab a b c s
          ≡ some (to_int (asks bios_func 11 a b c s).0, (asks bios_func 11 a b c s).1))
      × (bios_sd_write bios_func kernel jmptab a b c s
          ≡ some (to_int (asks bios_func 10 a b c s).0, (asks bios_func 10 a b c s).1))
      × (bios_logging bios_func kernel jmptab a s ≡ some (asks bios_func 14 a 0 0 s).1)
      × (bios_set_timer bios_func kernel jmptab a s ≡ some (asks bios_func 0 a 0 0 s).1)
      × (bios_read_fdt bios_func kernel jmptab a s ≡ some (asks bios_func 12 a 0 0 s))
unfolding init_jmptab call_jmptab bios_putstr bios_putchar bios_getchar bios_sd_read bios_sd_write
    bios_logging bios_set_timer bios_read_fdt call_bios port_write port_write_ch port_read_ch
    sd_read sd_write qemu_logging set_timer read_fdt
init_jmptab-reaches bios_func kernel t a b c s la lb lc =
    let ea = int-low a la in
    let eb = int-low b lb in
    let ec = int-low c lc in
    (
      refl,
      refl,
      ap (λ r. some (r, (asks bios_func 2 0 0 0 s).1)) (to_int-twice (asks bios_func 2 0 0 0 s).0),
      rw (ea, eb, ec)
          (ap (λ r. some (r, (asks bios_func 11 a b c s).1))
            (to_int-twice (asks bios_func 11 a b c s).0)),
      rw (ea, eb, ec)
          (ap (λ r. some (r, (asks bios_func 10 a b c s).1))
            (to_int-twice (asks bios_func 10 a b c s).0)),
      refl,
      refl,
      refl,
    )
