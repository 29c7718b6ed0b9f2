-- ===== src/Format/Digits.antt =====
-- libs/printk.c: the digits that the `do` loop of `mini_itoa` writes, lowest first.
use ucas_oslab_project.Common.{
  ℕ, zero, suc, ◌+◌, ◌-◌, ◌*◌, ◌/◌, ◌%◌, ◌^◌, ◌≤◌, ◌<◌, ◌≡◌, refl, ap, ◌∙◌, ◌⊎◌, inl, inr, Bool,
  true, false, leb, ◌==◌, if◌then◌else◌, some, List, [], ◌∷◌, arith, length, Bool-cases,
}
use ucas_oslab_project.LinkedList.{Ptr, update}
use ucas_oslab_project.Strings.{Mem}
use ucas_oslab_project.Strings.Text.{SameBut}
use ucas_oslab_project.Format.{signed_div, digit_char, signed_char, write_digits}
use ucas_oslab_project.Format.Radix.{smaller, smaller_than, positive, remainder}

-- The bytes from `p` on.
abbrev pub Holds : Mem → Ptr → List ℕ → Type 0
Holds mem p [] = Unit {0}
Holds mem p (c ∷ s) = (mem p ≡ c) × Holds mem (p + 1) s

pub Holds-frame :
    (m m' : Mem) (p : Ptr) (s : List ℕ)
    → ((q : Ptr) → p ≤ q → q < p + length s → m' q ≡ m q)
    → Holds m p s
    → Holds m' p s
Holds-frame m m' p [] same h = tt
Holds-frame m m' p (c ∷ s) same h = (
  same p (omega arith) (omega arith) ∙ h.0,
  Holds-frame m m' (p + 1) s (λ q a b. same q (omega arith) (omega arith)) h.1,
)

-- What a digit from '0' to '9', 'A' to 'F' or 'a' to 'f' stands for.
abbrev pub digit_value : ℕ → ℕ
digit_value c = if leb b'a' c then c - b'a' + 10 else if leb b'A' c then c - b'A' + 10 else c - b'0'

-- One of the characters '0' to '9' and, as the case asks, 'A' to 'F' or 'a' to 'f', that stands for
-- a digit of the radix.
abbrev pub IsDigit : (uppercase : Bool) (radix c : ℕ) → Type 0
IsDigit uppercase radix c =
    let letter = (if uppercase then b'A' else b'a') in
    (((b'0' ≤ c) × (c ≤ b'9')) ⊎ ((letter ≤ c) × (c ≤ letter + 5))) × (digit_value c < radix)

pub digit_value-char :
    (uppercase : Bool) (radix d : ℕ)
    → d < 16
    → d < radix
    → (digit_value (digit_char uppercase d) ≡ d) × IsDigit uppercase radix (digit_char uppercase d)
unfolding digit_char
digit_value-char true radix d h low = ground arith
digit_value-char false radix d h low = ground arith

-- The number that digits stand for, lowest first.
abbrev pub value_of : ℕ → List ℕ → ℕ
value_of radix [] = 0
value_of radix (c ∷ s) = digit_value c + radix * value_of radix s

abbrev pub AllDigits : (uppercase : Bool) (radix : ℕ) → List ℕ → Type 0
AllDigits uppercase radix [] = Unit {0}
AllDigits uppercase radix (c ∷ s) = IsDigit uppercase radix c × AllDigits uppercase radix s

-- The loop's end: digits `s` from `p` on, with the value `v`, and nothing else written.
pub record Digits (uppercase : Bool) (radix v : ℕ) (p p' : Ptr) (mem mem' : Mem) (s : List ℕ)
    : Type 0 where
  pub end : p' ≡ p + length s
  pub holds : Holds mem' p s
  pub value : value_of radix s ≡ v
  pub digits : AllDigits uppercase radix s
  pub some_digit : 0 < length s
  pub short : (n : ℕ) → v < radix ^ n → 0 < n → length s ≤ n
  pub rest : SameBut p (length s) mem mem'

-- An unsigned value, or one that is not negative.
abbrev pub Plain : Bool → ℕ → Type 0
Plain unsig v = (unsig ≡ true) ⊎ (v < 2 ^ 63)

pub step_char :
    (v radix : ℕ) (uppercase unsig : Bool)
    → Plain unsig v
    → (if unsig then digit_char uppercase (v % radix) else signed_char uppercase v radix)
      ≡ digit_char uppercase (v % radix)
unfolding signed_char
step_char v radix uppercase true plain = refl
step_char v radix uppercase false plain = ground arith

pub step_div :
    (v radix : ℕ) (unsig : Bool)
    → Plain unsig v
    → (if unsig then v / radix else signed_div v radix) ≡ v / radix
step_div v radix true plain = refl
step_div v radix false plain = ground arith

pub write_digits-step :
    (fuel v radix : ℕ) (uppercase unsig : Bool) (p : Ptr) (mem : Mem)
    → Plain unsig v
    → write_digits (suc fuel) v radix uppercase unsig p mem ≡ (
        let mem' = update mem p (digit_char uppercase (v % radix)) in
        if v / radix == 0
        then some (p + 1, mem')
        else write_digits fuel (v / radix) radix uppercase unsig (p + 1) mem')
unfolding write_digits
write_digits-step fuel v radix uppercase unsig p mem plain =
    rw (step_char v radix uppercase unsig plain, step_div v radix unsig plain)

pub quotient_small : (v radix : ℕ) → (radix ≡ 10) ⊎ (radix ≡ 16) → v < 2 ^ 63 → v / radix < 2 ^ 63
quotient_small v radix (inl e) low = rw e (omega arith)
quotient_small v radix (inr e) low = rw e (omega arith)

Plain-div :
    (unsig : Bool) (v radix : ℕ)
    → (radix ≡ 10) ⊎ (radix ≡ 16)
    → Plain unsig v
    → Plain unsig (v / radix)
Plain-div unsig v radix r (inl e) = inl e
Plain-div unsig v radix r (inr low) = inr (quotient_small v radix r low)

-- One digit more, for ten times the value.
short-cons :
    (v radix : ℕ)
    → (radix ≡ 10) ⊎ (radix ≡ 16)
    → (s : List ℕ) → 0 < length s
    → ((n : ℕ) → v / radix < radix ^ n → 0 < n → length s ≤ n)
    → (v / radix == 0) ≡ false
    → (n : ℕ) → v < radix ^ n
    → 0 < n
    → suc (length s) ≤ n
short-cons v radix r s one short more zero low pos = absurd (omega arith)
short-cons v radix r s one short more (suc n) low pos =
    let below : v / radix < radix ^ n = smaller_than v radix n r low in
    omega (arith, short n below (positive radix n (v / radix) below more))

radix_above : (v radix : ℕ) → (radix ≡ 10) ⊎ (radix ≡ 16) → v % radix < radix
radix_above v radix (inl e) = rw e (omega arith)
radix_above v radix (inr e) = rw e (omega arith)

module _ (v radix : ℕ) (uppercase : Bool) (p : Ptr) (mem : Mem)
    (r : (radix ≡ 10) ⊎ (radix ≡ 16)) where
  first : ℕ
  first = digit_char uppercase (v % radix)

  first_mem : Mem
  first_mem = update mem p first

  first-value : (digit_value first ≡ v % radix) × IsDigit uppercase radix first
  unfolding first
  first-value =
      digit_value-char uppercase radix (v % radix) (remainder v radix r).0 (radix_above v radix r)

  Digits-last :
      (v / radix == 0) ≡ true → Digits uppercase radix v p (p + 1) mem first_mem (first ∷ [])
  unfolding first_mem
  Digits-last done = record {
    end = omega arith;
    holds = (ground arith, tt);
    value = ground (arith, first-value, remainder v radix r);
    digits = (first-value.1, tt);
    some_digit = omega arith;
    short = λ n low pos. pos;
    rest = λ q out. ground arith;
  }

  Digits-cons :
      {p' : Ptr} {mem' : Mem} {s : List ℕ}
      → (v / radix == 0) ≡ false
      → Digits uppercase radix (v / radix) (p + 1) p' first_mem mem' s
      → Digits uppercase radix v p p' mem mem' (first ∷ s)
  unfolding first_mem
  Digits-cons {s = s} more d = record {
    end = omega (arith, d.end);
    holds = (d.rest p (inl (omega arith)) ∙ ground arith, d.holds);
    value =
        ap (λ z. z + radix * value_of radix s) first-value.0
        ∙ ap (λ z. v % radix + radix * z) d.value
        ∙ (remainder v radix r).1;
    digits = (first-value.1, d.digits);
    some_digit = omega arith;
    short = short-cons v radix r s d.some_digit d.short more;
    rest = λ q out. d.rest q (ground arith) ∙ ground arith;
  }

fuel_left : (fuel w : ℕ) → w < 2 ^ fuel → (w == 0) ≡ false → 0 < fuel
fuel_left zero w low more = ground arith
fuel_left (suc fuel) w low more = omega arith

pub write_digits-Digits :
    (fuel v radix : ℕ) (uppercase unsig : Bool) (p : Ptr) (mem : Mem)
    → (radix ≡ 10) ⊎ (radix ≡ 16)
    → Plain unsig v
    → v < 2 ^ fuel
    → 0 < fuel
    → (p' : Ptr) × (mem' : Mem) × (s : List ℕ) × (write_digits fuel v radix uppercase unsig p mem
        ≡ some (p', mem'))
      × Digits uppercase radix v p p' mem mem' s
unfolding first first_mem
write_digits-Digits zero v radix uppercase unsig p mem r plain low pos = absurd (omega arith)
write_digits-Digits (suc fuel) v radix uppercase unsig p mem r plain low pos =
    let mem1 = first_mem v radix uppercase p mem r in
    let step = write_digits-step fuel v radix uppercase unsig p mem plain in
    elim (Bool-cases (v / radix == 0)) [
      | inl last ↦ (
        p + 1,
        mem1,
        first v radix uppercase p mem r ∷ [],
        step ∙ rw last,
        Digits-last v radix uppercase p mem r last,
      )
      | inr more ↦
          let (p', mem', s, goes, d) =
            write_digits-Digits fuel (v / radix) radix uppercase unsig (p + 1) mem1 r
              (Plain-div unsig v radix r plain) (smaller v radix fuel r low)
              (fuel_left fuel (v / radix) (smaller v radix fuel r low) more) in
          (
            p',
            mem',
            first v radix uppercase p mem r ∷ s,
            step ∙ rw more goes,
            Digits-cons v radix uppercase p mem r more d,
          )
    ]
