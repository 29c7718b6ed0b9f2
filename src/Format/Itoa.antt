-- ===== src/Format/Itoa.antt =====
-- libs/printk.c: the text that `mini_itoa` leaves, from its digits to its NUL.
use mathlib.Core.List.{reverse}
use mathlib.Core.Path.{subst}
use ucas_oslab_project.Common.{
  ℕ, ◌+◌, ◌-◌, ◌/◌, ◌^◌, ◌<◌, ◌≡◌, ◌≢◌, refl, sym, ap, ◌∙◌, ◌⊎◌, inl, inr, Bool, true, false, not,
  ◌&&◌, ltb, if◌then◌else◌, some, List, [], ◌∷◌, ◌++◌, arith, length, length-append,
}
use ucas_oslab_project.LinkedList.{Ptr, update}
use ucas_oslab_project.Strings.{Mem}
use ucas_oslab_project.Strings.Text.{SameBut}
use ucas_oslab_project.Format.{
  is_negative, negate, write_zeros, reverse_loop, finish_itoa, mini_itoa,
}
use ucas_oslab_project.Format.Digits.{Holds, Holds-frame, Digits, Plain, write_digits-Digits}
use ucas_oslab_project.Format.Reverse.{length-reverse, reverse_loop-reverse}
use ucas_oslab_project.Format.Number.{
  zeros, length-zeros, value_of-pad, AllDigits-append, AllDigits-zeros, AllDigits-reverse,
  write_zeros-Holds, Holds-append, sign, reverse-sign, signed-IsString, scan-reverse, Printed,
}

-- The sign, when there is one, behind the digits.
Holds-sign :
    (mem : Mem) (b : Ptr) (negative : Bool) (s : List ℕ)
    → Holds mem b s
    → let p = b + length s in
      let mem' = (if negative then update mem p b'-' else mem) in
      let p' = (if negative then p + 1 else p) in
      Holds mem' b (s ++ sign negative)
      × (p' ≡ b + length (s ++ sign negative))
      × SameBut b (length (s ++ sign negative)) mem mem'
Holds-sign mem b true s h =
    let new = update mem (b + length s) b'-' in
    let size = length-append s (b'-' ∷ []) in
    (
      Holds-append new b s (b'-' ∷ []) (Holds-frame mem new b s (λ q low high. ground arith) h)
          (ground arith, tt),
      omega (arith, size),
      λ q out. ground (arith, size),
    )
Holds-sign mem b false s h =
    let size = length-append s [] in
    (Holds-append mem b s [] h tt, omega (arith, size), λ q out. refl)

-- The sign, the NUL and the exchange, behind digits `body`.
close : (b : Ptr) (negative : Bool) (p1 : Ptr) → Mem → ℕ × Mem
close b negative p1 mem =
    let mem2 = (if negative then update mem p1 b'-' else mem) in
    let p2 = (if negative then p1 + 1 else p1) in
    let mem3 = update mem2 p2 0 in let len = p2 - b in (len, reverse_loop (len / 2) b len 0 mem3)

record Closed (b : Ptr) (negative : Bool) (body : List ℕ) (mem : Mem) (len : ℕ) (mem' : Mem)
    : Type 0 where
  text : Holds mem' b (sign negative ++ reverse body)
  end : mem' (b + length (sign negative ++ reverse body)) ≡ 0
  size : len ≡ length (sign negative ++ reverse body)
  rest : SameBut b (len + 1) mem mem'

close-Closed :
    (b : Ptr) (negative : Bool) (body : List ℕ) (mem : Mem)
    → Holds mem b body
    → (let r = close b negative (b + length body) mem in Closed b negative body mem r.0 r.1)
unfolding close
close-Closed b negative body mem h =
    let p1 = b + length body in
    let mem2 = (if negative then update mem p1 b'-' else mem) in
    let p2 = (if negative then p1 + 1 else p1) in
    let mem3 = update mem2 p2 0 in
    let full = body ++ sign negative in
    let (held, place, same) = Holds-sign mem b negative body h in
    let len_is : p2 - b ≡ length full = omega (arith, place) in
    let held3 = Holds-frame mem2 mem3 b full (λ q low high. ground (arith, place)) held in
    let flips = reverse_loop-reverse b full mem3 held3 in
    let turned = reverse-sign negative body in
    let size = ap (length {A = ℕ}) (sym turned) ∙ length-reverse full in
    rw len_is (record {
      text = subst (Holds _ b) turned flips.0;
      end = flips.1 _ (inr (omega (arith, size))) ∙ ground (arith, place, size);
      size = sym size;
      rest = λ q out. flips.1 q (ground arith) ∙ ground (arith, place) ∙ same q (ground arith);
    })

-- The value whose digits `mini_itoa` writes.
abbrev pub magnitude : ℕ → Bool → ℕ
magnitude value unsig = if is_negative value && not unsig then negate value else value

finish_itoa-Printed :
    (uppercase : Bool) (radix v : ℕ) (b p : Ptr) (negative : Bool) (zero_pad : ℕ) (mem mem' : Mem)
    (s : List ℕ)
    → 0 < radix
    → Digits uppercase radix v b p mem mem' s
    → (len : ℕ) × (last : Mem) × (digits : List ℕ) × (finish_itoa b p negative zero_pad mem'
        ≡ (len, last))
      × Printed uppercase radix v negative zero_pad last b len digits
      × SameBut b (len + 1) mem last
unfolding finish_itoa close
finish_itoa-Printed uppercase radix v b p negative zero_pad mem mem' s some_radix d =
    let pad = zero_pad - (p - b) in
    let body = s ++ zeros pad in
    let mem1 = write_zeros pad p mem' in
    let wrote = write_zeros-Holds pad p mem' in
    let held =
      Holds-append mem1 b s (zeros pad)
        (Holds-frame mem' mem1 b s (λ q low high. wrote.1 q (inl (omega (arith, d.end)))) d.holds)
        (subst (λ q. Holds mem1 q (zeros pad)) d.end wrote.0) in
    let place : p + pad ≡ b + length body =
      omega (arith, length-append s (zeros pad), length-zeros pad, d.end) in
    let c = close-Closed b negative body mem1 held in
    let digits_ok = AllDigits-reverse uppercase radix body (
      AllDigits-append uppercase radix s (zeros pad) d.digits
        (AllDigits-zeros uppercase radix pad some_radix)) in
    let r = close b negative (b + length body) mem1 in
    let more = length-append (sign negative) (reverse body) in
    (
      r.0,
      r.1,
      reverse body,
      ap (λ q. close b negative q mem1) place,
      record {
        text = signed-IsString uppercase radix r.1 b negative (reverse body) c.text digits_ok c.end;
        reads = scan-reverse radix body ∙ value_of-pad radix s pad ∙ d.value;
        are_digits = digits_ok;
        padded = omega (arith, length-reverse body, place, d.end);
        short = λ n low pos. ground (arith, length-reverse body, place, d.end, d.short n low pos);
        len_is = c.size;
      },
      λ q out.
          c.rest q out
          ∙ wrote.1 q (omega (arith, c.size, more, length-reverse body, place))
          ∙ d.rest q (omega (arith, c.size, more, length-reverse body, place, d.end)),
    )

-- mini_itoa in radix 10 or 16, of a 64-bit value that is not the least signed one (or is
-- unsigned), leaves a sign, just if the value is signed and negative, and digits below the radix
-- that read back as the value, each of them one of '0' to '9' or, of 'A' to 'F' if upper case is
-- asked for and of 'a' to 'f' if not; the digits are zero_pad at least, and no more than the value
-- and zero_pad need; it returns the length of the text and writes to no byte but those of the text
-- and its NUL.
pub mini_itoa-Printed :
    (value radix : ℕ) (uppercase unsig : Bool) (buffer : Ptr) (zero_pad : ℕ) (mem : Mem)
    → (radix ≡ 10) ⊎ (radix ≡ 16)
    → value < 2 ^ 64
    → (unsig ≡ true) ⊎ (value ≢ 2 ^ 63)
    → (len : ℕ) × (last : Mem) × (digits : List ℕ) × (mini_itoa value radix uppercase unsig buffer
          zero_pad mem
        ≡ some (len, last))
      × Printed uppercase radix
          (magnitude value unsig)
          (is_negative value && not unsig)
          zero_pad
          last
          buffer
          len
          digits
      × SameBut buffer (len + 1) mem last
unfolding mini_itoa
mini_itoa-Printed value radix uppercase unsig buffer zero_pad mem r low not_min =
    let v = magnitude value unsig in
    let plain : Plain unsig v = ground (arith, not_min) in
    let (p, mem', s, goes, d) =
      write_digits-Digits 64 v radix uppercase unsig buffer mem r plain (ground arith)
        (omega arith) in
    let negative = is_negative value && not unsig in
    let (len, last, digits, ends, printed, same) =
      finish_itoa-Printed uppercase radix v buffer p negative zero_pad mem mem' s (omega arith) d in
    let known : ltb 16 radix ≡ false = ground arith in
    (len, last, digits, rw (known, goes) (ap some ends), printed, same)
