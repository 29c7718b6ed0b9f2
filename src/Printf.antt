-- ===== src/Printf.antt =====
-- tiny_libc/printf.c, the user programs' formatted output. It differs from libs/printk.c in the
-- digits of a number, and in its last two functions, which call the system.
pub mod Number
use ucas_oslab_project.Common.{
  ℕ, zero, suc, ◌+◌, ◌%◌, ◌/◌, ◌^◌, Bool, true, false, not, ◌&&◌, ◌||◌, ◌==◌, ltb, leb, Option,
  none, some, List, if◌then◌else◌,
}
use ucas_oslab_project.LinkedList.{Ptr, update}
use ucas_oslab_project.Strings.{Mem}
use ucas_oslab_project.Format.{is_negative, negate, signed_div, signed_char, finish_itoa}
use ucas_oslab_project.Format.Output
use ucas_oslab_project.Format.Output.{vsnprintf}
use ucas_oslab_project.Printk.{Frame}

-- The `do` loop divides with a sign whatever `unsig` is, and ends at a value that is not positive.
unfoldable pub write_digits :
    ℕ → (value radix : ℕ) (uppercase : Bool) (pbuffer : Ptr) → Mem → Option (Ptr × Mem)
write_digits zero value radix uppercase pbuffer mem = none
write_digits (suc fuel) value radix uppercase pbuffer mem =
    let value' = signed_div value radix in
    let mem' = update mem pbuffer (signed_char uppercase value radix) in
    let rest = write_digits fuel value' radix uppercase (pbuffer + 1) mem' in
    if value' == 0 || is_negative value' then some (pbuffer + 1, mem') else rest

unfoldable pub mini_itoa :
    (value radix : ℕ) (uppercase unsig : Bool) (buffer : Ptr) (zero_pad : ℕ)
    → Mem
    → Option (ℕ × Mem)
mini_itoa value radix uppercase unsig buffer zero_pad mem =
    if ltb 16 radix
    then some (0, mem)
    else let negative = is_negative value && not unsig in
      let value' = (if negative then negate value else value) in
      elim (write_digits 64 value' radix uppercase buffer mem) [
        | none ↦ none
        | some (pbuffer, mem') ↦ some (finish_itoa buffer pbuffer negative zero_pad mem')
      ]

-- The same text as in libs/printk.c.
abbrev pub MiniBuff : Type 0
MiniBuff = Output.MiniBuff

abbrev pub putc : (ch : ℕ) → MiniBuff → Mem → ℕ × MiniBuff × Mem
putc ch b mem = Output.putc ch b mem

abbrev pub puts : (s : Ptr) (len : ℕ) → MiniBuff → Mem → ℕ × MiniBuff × Mem
puts s len b mem = Output.puts s len b mem

unfoldable pub mini_vsnprintf :
    Frame → (buffer : Ptr) (buffer_len : ℕ) (fmt : Ptr) (va : List ℕ) → Mem → Option (ℕ × Mem)
mini_vsnprintf fr buffer buffer_len fmt va mem =
    vsnprintf mini_itoa fr.bf fr.fuel buffer buffer_len fmt va mem

-- The two system calls that show a text, for what the kernel does to the rest of the world.
module _ {S : Type 0} (sys_write : Ptr → Mem → S → Option S) (sys_reflush : S → Option S) where
  unfoldable pub vprintf : Frame → (fmt : Ptr) (va : List ℕ) → Mem → S → Option (ℕ × Mem × S)
  vprintf fr fmt va mem s = elim (mini_vsnprintf fr fr.buff 256 fmt va mem) [
    | none ↦ none
    | some (ret, mem1) ↦
        let mem2 = update mem1 (fr.buff + ret) 0 in
        elim (sys_write fr.buff mem2 s) [
          | none ↦ none
          | some s1 ↦ elim (sys_reflush s1) [ none ↦ none | some s2 ↦ some (ret, mem2, s2) ]
        ]
  ]

  unfoldable pub printf : Frame → (fmt : Ptr) (va : List ℕ) → Mem → S → Option (ℕ × Mem × S)
  printf fr fmt va mem s = vprintf fr fmt va mem s
