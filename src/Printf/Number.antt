-- ===== src/Printf/Number.antt =====
-- tiny_libc/printf.c: its `mini_itoa` against that of libs/printk.c.
use ucas_oslab_project.Common.{
  ℕ, zero, suc, ◌+◌, ◌-◌, ◌%◌, ◌/◌, ◌^◌, ◌≤◌, ◌<◌, ◌≡◌, ◌≢◌, refl, sym, ap, ◌∙◌, ◌⊎◌, inl, inr,
  Bool, true, false, not, ◌&&◌, ◌||◌, ◌==◌, ltb, some, if◌then◌else◌, arith,
}
use ucas_oslab_project.LinkedList.{Ptr, update}
use ucas_oslab_project.Strings.{Mem}
use ucas_oslab_project.Format
use ucas_oslab_project.Format.{
  is_negative, negate, digit_char, signed_char, signed_div, finish_itoa, write_zeros, reverse_loop,
}
use ucas_oslab_project.Format.Digits.{write_digits-step, quotient_small, step_char, step_div}
use ucas_oslab_project.Format.Itoa.{mini_itoa-Printed}
use ucas_oslab_project.Format.Output.Pieces.{ItoaLaw}
use ucas_oslab_project.Printf.{write_digits, mini_itoa}

-- A value that is not negative, or a signed one other than the least.
abbrev pub Accepts : ℕ → Bool → Type 0
Accepts value unsig = (value < 2 ^ 63) ⊎ ((unsig ≡ false) × (value ≢ 2 ^ 63))

small_step :
    (fuel v radix : ℕ) (uppercase : Bool) (p : Ptr) (mem : Mem)
    → (radix ≡ 10) ⊎ (radix ≡ 16)
    → v < 2 ^ 63
    → write_digits (suc fuel) v radix uppercase p mem ≡ (
        let mem' = update mem p (digit_char uppercase (v % radix)) in
        if v / radix == 0
        then some (p + 1, mem')
        else write_digits fuel (v / radix) radix uppercase (p + 1) mem')
unfolding write_digits
small_step fuel v radix uppercase p mem r low =
    let below : v / radix < 2 ^ 63 = quotient_small v radix r low in
    let known : (v / radix == 0 || is_negative (v / radix)) ≡ (v / radix == 0) = ground arith in
    rw (step_char v radix uppercase false (inr low), step_div v radix false (inr low), known)

same_digits :
    (fuel v radix : ℕ) (uppercase unsig : Bool) (p : Ptr) (mem : Mem)
    → (radix ≡ 10) ⊎ (radix ≡ 16)
    → v < 2 ^ 63
    → write_digits fuel v radix uppercase p mem
      ≡ Format.write_digits fuel v radix uppercase unsig p mem
unfolding write_digits Format.write_digits
same_digits zero v radix uppercase unsig p mem r low = refl
same_digits (suc fuel) v radix uppercase unsig p mem r low =
    let mem' = update mem p (digit_char uppercase (v % radix)) in
    small_step fuel v radix uppercase p mem r low
    ∙ ap (λ z. if v / radix == 0 then some (p + 1, mem') else z)
        (same_digits fuel (v / radix) radix uppercase unsig (p + 1) mem' r
          (quotient_small v radix r low))
    ∙ sym (write_digits-step fuel v radix uppercase unsig p mem (inr low))

-- mini_itoa of tiny_libc/printf.c, in radix 10 or 16, does the same as that of libs/printk.c for
-- each value below 2^63, and for each signed value but the least one.
pub mini_itoa-same :
    (value radix : ℕ) (uppercase unsig : Bool) (buffer : Ptr) (zero_pad : ℕ) (mem : Mem)
    → (radix ≡ 10) ⊎ (radix ≡ 16)
    → value < 2 ^ 64
    → Accepts value unsig
    → mini_itoa value radix uppercase unsig buffer zero_pad mem
      ≡ Format.mini_itoa value radix uppercase unsig buffer zero_pad mem
unfolding mini_itoa Format.mini_itoa
mini_itoa-same value radix uppercase unsig buffer zero_pad mem r low accepts =
    let v = (if is_negative value && not unsig then negate value else value) in
    let small : v < 2 ^ 63 = ground (arith, accepts) in
    rw (same_digits 64 v radix uppercase unsig buffer mem r small)

pub itoa_law : ItoaLaw mini_itoa Accepts
itoa_law = record {
  prints = λ value radix uppercase unsig buffer zero_pad mem r low accepts.
      let (len, last, digits, goes, printed, same) =
        mini_itoa-Printed value radix uppercase unsig buffer zero_pad mem r low
          (ground (arith, accepts)) in
      (
        len,
        last,
        digits,
        mini_itoa-same value radix uppercase unsig buffer zero_pad mem r low accepts ∙ goes,
        printed,
        same,
      );
}

high_ends :
    (v radix : ℕ)
    → (radix ≡ 10) ⊎ (radix ≡ 16)
    → 2 ^ 63 ≤ v
    → v < 2 ^ 64
    → (signed_div v radix == 0 || is_negative (signed_div v radix)) ≡ true
high_ends v radix (inl e) high low = rw e (ground arith)
high_ends v radix (inr e) high low = rw e (ground arith)

high_digits :
    (fuel v radix : ℕ) (uppercase : Bool) (p : Ptr) (mem : Mem)
    → (radix ≡ 10) ⊎ (radix ≡ 16)
    → 2 ^ 63 ≤ v
    → v < 2 ^ 64
    → write_digits (suc fuel) v radix uppercase p mem
      ≡ some (p + 1, update mem p ((b'0' + 256 - negate v % radix) % 256))
unfolding write_digits signed_char
high_digits fuel v radix uppercase p mem r high low =
    let negative : is_negative v ≡ true = ground arith in
    let ends = high_ends v radix r high low in rw (ends, negative)

finish_one :
    (buffer : Ptr) (zero_pad : ℕ) (mem : Mem)
    → zero_pad ≤ 1
    → finish_itoa buffer (buffer + 1) false zero_pad mem ≡ (1, update mem (buffer + 1) 0)
unfolding finish_itoa write_zeros reverse_loop
finish_one buffer zero_pad mem narrow =
    let no_pad : zero_pad - (buffer + 1 - buffer) ≡ 0 = omega arith in
    let len : buffer + 1 + 0 - buffer ≡ 1 = omega arith in
    let place : buffer + 1 + 0 ≡ buffer + 1 = omega arith in rw (no_pad, len, place)

-- mini_itoa of tiny_libc/printf.c, in radix 10 or 16, of an unsigned value from 2^63 on and
-- without a width beyond 1, leaves one character: '0' less the last digit of 2^64 - value.
pub mini_itoa-high :
    (value radix : ℕ) (uppercase : Bool) (buffer : Ptr) (zero_pad : ℕ) (mem : Mem)
    → (radix ≡ 10) ⊎ (radix ≡ 16)
    → 2 ^ 63 ≤ value
    → value < 2 ^ 64
    → zero_pad ≤ 1
    → mini_itoa value radix uppercase true buffer zero_pad mem
      ≡ some
          (1, update (update mem buffer ((b'0' + 256 - negate value % radix) % 256)) (buffer + 1) 0)
unfolding mini_itoa
mini_itoa-high value radix uppercase buffer zero_pad mem r high low narrow =
    let known : ltb 16 radix ≡ false = ground arith in
    let unsigned : (is_negative value && not true) ≡ false = ground arith in
    let digits = high_digits 63 value radix uppercase buffer mem r high low in
    let mem1 = update mem buffer ((b'0' + 256 - negate value % radix) % 256) in
    rw (known, unsigned, digits)
      (ap (λ n. some (finish_itoa buffer (buffer + 1) n zero_pad mem1)) unsigned
        ∙ ap some (finish_one buffer zero_pad mem1 narrow))
