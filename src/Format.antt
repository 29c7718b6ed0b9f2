-- ===== src/Format.antt =====
-- libs/printk.c, but for the three functions that pass a text to the screen, the firmware and the
-- log. A `long` is a number below 2 ^ 64, negative from 2 ^ 63 on. `none` is a loop that outlasts
-- its fuel, or a call with too few arguments.
pub mod Radix
pub mod Digits
pub mod Reverse
pub mod Number
pub mod Itoa
pub mod Output
use ucas_oslab_project.Common.{
  ℕ, zero, suc, ◌+◌, ◌-◌, ◌*◌, ◌/◌, ◌%◌, ◌^◌, Bool, true, false, not, ◌&&◌, ◌||◌, ◌==◌, ltb, leb,
  Option, none, some, List, [], ◌∷◌, if◌then◌else◌,
}
use ucas_oslab_project.LinkedList.{Ptr, update}
use ucas_oslab_project.Strings.{Mem, strlen_loop}

unfoldable pub mini_strlen : ℕ → Ptr → Mem → Option ℕ
mini_strlen fuel s mem = strlen_loop fuel s 0 mem

abbrev pub is_negative : ℕ → Bool
is_negative value = leb (2 ^ 63) value

abbrev pub negate : ℕ → ℕ
negate value = (2 ^ 64 - value) % 2 ^ 64

-- `value / radix` and `value % radix` of C: the quotient goes towards 0, and the rest has the sign
-- of `value`; the rest is a byte here.
abbrev pub signed_div : ℕ → ℕ → ℕ
signed_div value radix = if is_negative value then negate (negate value / radix) else value / radix

-- The character of a digit of an unsigned division.
unfoldable pub digit_char : (uppercase : Bool) → ℕ → ℕ
digit_char uppercase digit =
    if ltb digit 10 then b'0' + digit else (if uppercase then b'A' else b'a') + digit - 10

-- That of a signed one: a rest that is not positive counts down from '0'.
unfoldable pub signed_char : (uppercase : Bool) → (value radix : ℕ) → ℕ
signed_char uppercase value radix =
    if is_negative value
    then (b'0' + 256 - negate value % radix) % 256
    else digit_char uppercase (value % radix)

-- The `do` loop: the address behind the last digit, and the memory.
unfoldable pub write_digits :
    ℕ → (value radix : ℕ) (uppercase unsig : Bool) (pbuffer : Ptr) → Mem → Option (Ptr × Mem)
write_digits zero value radix uppercase unsig pbuffer mem = none
write_digits (suc fuel) value radix uppercase unsig pbuffer mem =
    let ch =
      (if unsig then digit_char uppercase (value % radix) else signed_char uppercase value radix) in
    let value' = (if unsig then value / radix else signed_div value radix) in
    let mem' = update mem pbuffer ch in
    let rest = write_digits fuel value' radix uppercase unsig (pbuffer + 1) mem' in
    if value' == 0 then some (pbuffer + 1, mem') else rest

-- The zeros: `n` rounds are left.
unfoldable pub write_zeros : ℕ → (pbuffer : Ptr) → Mem → Mem
write_zeros zero pbuffer mem = mem
write_zeros (suc n) pbuffer mem = write_zeros n (pbuffer + 1) (update mem pbuffer b'0')

-- The exchange of `buffer[i]` and `buffer[len - i - 1]`, for `n` values of `i` from `i` on.
unfoldable pub swap_ends : (buffer : Ptr) (len i : ℕ) → Mem → Mem
swap_ends buffer len i mem =
    let j = mem (buffer + i) in
    let mem1 = update mem (buffer + i) (mem (buffer + (len - i - 1))) in
    update mem1 (buffer + (len - i - 1)) j

unfoldable pub reverse_loop : ℕ → (buffer : Ptr) (len i : ℕ) → Mem → Mem
reverse_loop zero buffer len i mem = mem
reverse_loop (suc n) buffer len i mem =
    reverse_loop n buffer len (i + 1) (swap_ends buffer len i mem)

-- `mini_itoa` from the zeros on, with the digits up to `pbuffer`.
unfoldable pub finish_itoa : (buffer pbuffer : Ptr) (negative : Bool) (zero_pad : ℕ) → Mem → ℕ × Mem
finish_itoa buffer pbuffer negative zero_pad mem =
    let pad = zero_pad - (pbuffer - buffer) in
    let mem1 = write_zeros pad pbuffer mem in
    let p1 = pbuffer + pad in
    let mem2 = (if negative then update mem1 p1 b'-' else mem1) in
    let p2 = (if negative then p1 + 1 else p1) in
    let mem3 = update mem2 p2 0 in
    let len = p2 - buffer in (len, reverse_loop (len / 2) buffer len 0 mem3)

-- 64 rounds are enough, since a value below 2 ^ 64 has at most 64 digits.
unfoldable pub mini_itoa :
    (value radix : ℕ) (uppercase unsig : Bool) (buffer : Ptr) (zero_pad : ℕ)
    → Mem
    → Option (ℕ × Mem)
mini_itoa value radix uppercase unsig buffer zero_pad mem =
    if ltb 16 radix
    then some (0, mem)
    else let negative = is_negative value && not unsig in
      let value' = (if negative then negate value else value) in
      elim (write_digits 64 value' radix uppercase unsig buffer mem) [
        | none ↦ none
        | some (pbuffer, mem') ↦ some (finish_itoa buffer pbuffer negative zero_pad mem')
      ]
