-- ===== src/Format/Number.antt =====
-- libs/printk.c: the text that `mini_itoa` leaves reads back as the number.
use mathlib.Core.List.{reverse, reverse-cons, reverse-append}
use mathlib.Core.Path.{subst}
use ucas_oslab_project.Common.{
  ℕ, zero, suc, ◌+◌, ◌*◌, ◌^◌, ◌≤◌, ◌<◌, ◌≡◌, ◌≢◌, refl, sym, ap, ◌∙◌, ◌⊎◌, inl, Bool, true, false,
  if◌then◌else◌, List, [], ◌∷◌, ◌++◌, arith, length,
}
use ucas_oslab_project.LinkedList.{Ptr, update}
use ucas_oslab_project.Strings.{Mem}
use ucas_oslab_project.Strings.Text.{IsString, SameBut}
use ucas_oslab_project.Format.{write_zeros}
use ucas_oslab_project.Format.Digits.{Holds, digit_value, IsDigit, value_of, AllDigits}

-- Reading digits, highest first.
abbrev pub scan : (radix acc : ℕ) → List ℕ → ℕ
scan radix acc [] = acc
scan radix acc (c ∷ s) = scan radix (digit_value c + radix * acc) s

scan-append :
    (radix acc : ℕ) (s t : List ℕ) → scan radix acc (s ++ t) ≡ scan radix (scan radix acc s) t
scan-append radix acc [] t = refl
scan-append radix acc (c ∷ s) t = scan-append radix (digit_value c + radix * acc) s t

pub scan-reverse : (radix : ℕ) (s : List ℕ) → scan radix 0 (reverse s) ≡ value_of radix s
scan-reverse radix [] = refl
scan-reverse radix (c ∷ s) =
    ap (scan radix 0) (reverse-cons c s)
    ∙ scan-append radix 0 (reverse s) (c ∷ [])
    ∙ ap (λ z. digit_value c + radix * z) (scan-reverse radix s)

pub zeros : ℕ → List ℕ
zeros zero = []
zeros (suc n) = b'0' ∷ zeros n

pub length-zeros : (n : ℕ) → length (zeros n) ≡ n
unfolding zeros
length-zeros zero = refl
length-zeros (suc n) = ap suc (length-zeros n)

value_of-zeros : (radix n : ℕ) → value_of radix (zeros n) ≡ 0
unfolding zeros
value_of-zeros radix zero = refl
value_of-zeros radix (suc n) = grind (arith, value_of-zeros radix n)

pub value_of-pad :
    (radix : ℕ) (s : List ℕ) (n : ℕ) → value_of radix (s ++ zeros n) ≡ value_of radix s
value_of-pad radix [] n = value_of-zeros radix n
value_of-pad radix (c ∷ s) n = ap (λ z. digit_value c + radix * z) (value_of-pad radix s n)

module _ (uppercase : Bool) (radix : ℕ) where
  pub AllDigits-append :
      (s t : List ℕ)
      → AllDigits uppercase radix s
      → AllDigits uppercase radix t
      → AllDigits uppercase radix (s ++ t)
  AllDigits-append [] t hs ht = ht
  AllDigits-append (c ∷ s) t hs ht = (hs.0, AllDigits-append s t hs.1 ht)

  pub AllDigits-zeros : (n : ℕ) → 0 < radix → AllDigits uppercase radix (zeros n)
  unfolding zeros
  AllDigits-zeros zero some_radix = tt
  AllDigits-zeros (suc n) some_radix =
      ((inl (omega arith, omega arith), some_radix), AllDigits-zeros n some_radix)

  pub AllDigits-reverse :
      (s : List ℕ) → AllDigits uppercase radix s → AllDigits uppercase radix (reverse s)
  AllDigits-reverse [] h = tt
  AllDigits-reverse (c ∷ s) h =
      subst (AllDigits uppercase radix) (sym (reverse-cons c s))
        (AllDigits-append (reverse s) (c ∷ []) (AllDigits-reverse s h.1) (h.0, tt))

pub write_zeros-Holds :
    (n : ℕ) (p : Ptr) (mem : Mem)
    → Holds (write_zeros n p mem) p (zeros n) × SameBut p n mem (write_zeros n p mem)
unfolding write_zeros zeros
write_zeros-Holds zero p mem = (tt, λ q out. refl)
write_zeros-Holds (suc n) p mem =
    let (h, same) = write_zeros-Holds n (p + 1) (update mem p b'0') in
    ((same p (inl (omega arith)) ∙ ground arith, h), λ q out. same q (ground arith) ∙ ground arith)

pub Holds-append :
    (mem : Mem) (p : Ptr) (s t : List ℕ)
    → Holds mem p s
    → Holds mem (p + length s) t
    → Holds mem p (s ++ t)
Holds-append mem p [] t hs ht = subst (λ q. Holds mem q t) (omega arith) ht
Holds-append mem p (c ∷ s) t hs ht =
    (hs.0, Holds-append mem (p + 1) s t hs.1 (subst (λ q. Holds mem q t) (omega arith) ht))

abbrev pub sign : Bool → List ℕ
sign negative = if negative then b'-' ∷ [] else []

digit-nonzero : (uppercase : Bool) (radix c : ℕ) → IsDigit uppercase radix c → c ≢ 0
digit-nonzero true radix c d = ground arith
digit-nonzero false radix c d = ground arith

-- Text bytes, none of them NUL, and the NUL behind them.
Holds-IsString :
    (uppercase : Bool) (radix : ℕ) (mem : Mem) (p : Ptr) (s : List ℕ)
    → Holds mem p s
    → AllDigits uppercase radix s
    → mem (p + length s) ≡ 0
    → IsString mem p s
Holds-IsString uppercase radix mem p [] h d end = ground arith
Holds-IsString uppercase radix mem p (c ∷ s) h d end = (
  h.0,
  digit-nonzero uppercase radix c d.0,
  Holds-IsString uppercase radix mem (p + 1) s h.1 d.1 (ground arith),
)

pub reverse-sign :
    (negative : Bool) (s : List ℕ) → reverse (s ++ sign negative) ≡ sign negative ++ reverse s
reverse-sign true s = reverse-append s (b'-' ∷ [])
reverse-sign false s = reverse-append s []

-- The text of a number, with a sign, at least `zero_pad` digits and a NUL behind it.
pub record Printed (uppercase : Bool) (radix value : ℕ) (negative : Bool) (zero_pad : ℕ) (mem : Mem)
    (buffer : Ptr) (len : ℕ) (digits : List ℕ) : Type 0 where
  pub text : IsString mem buffer (sign negative ++ digits)
  pub reads : scan radix 0 digits ≡ value
  pub are_digits : AllDigits uppercase radix digits
  pub padded : zero_pad ≤ length digits
  pub short : (n : ℕ) → value < radix ^ n → 0 < n → (length digits ≤ n) ⊎ (length digits ≤ zero_pad)
  pub len_is : len ≡ length (sign negative ++ digits)

pub signed-IsString :
    (uppercase : Bool) (radix : ℕ) (mem : Mem) (p : Ptr) (negative : Bool) (s : List ℕ)
    → Holds mem p (sign negative ++ s)
    → AllDigits uppercase radix s
    → mem (p + length (sign negative ++ s)) ≡ 0
    → IsString mem p (sign negative ++ s)
signed-IsString uppercase radix mem p true s h d end =
    (h.0, (λ e. omega arith), Holds-IsString uppercase radix mem (p + 1) s h.1 d (ground arith))
signed-IsString uppercase radix mem p false s h d end =
    Holds-IsString uppercase radix mem p s h d end
