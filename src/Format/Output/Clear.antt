-- ===== src/Format/Output/Clear.antt =====
-- libs/printk.c: what the cases of `mini_vsnprintf` have in common.
use ucas_oslab_project.Common.{
  ℕ, suc, ◌+◌, ◌^◌, ◌≤◌, ◌<◌, ◌≡◌, ◌≢◌, refl, ◌⊎◌, inl, inr, Bool, true, false, ◌==◌, Option, some,
  none, List, [], ◌∷◌, ◌++◌, arith, length,
}
use ucas_oslab_project.LinkedList.{Ptr}
use ucas_oslab_project.Strings.{Mem, strlen, strlen_loop}
use ucas_oslab_project.Strings.Text.{IsString, strlen-IsString}
use ucas_oslab_project.Format.Digits.{Holds}
use ucas_oslab_project.Format.Number.{sign}
use ucas_oslab_project.Format.Itoa.{magnitude}
use ucas_oslab_project.Format.Output.Pieces.{
  Conversion, unsigned, signed, hex, upper_hex, letter, radix_of, is_unsigned, Piece, plain, number,
  character, text, other, width_of, shown, WidthOk,
}

-- All memory but the buffer and the array `bf` is as it was.
abbrev pub Untouched : (buffer : Ptr) (n : ℕ) (bf : Ptr) → Mem → Mem → Type 0
Untouched buffer n bf mem mem' =
    (q : Ptr) → (q < buffer) ⊎ (buffer + n ≤ q) → (q < bf) ⊎ (bf + 24 ≤ q) → mem' q ≡ mem q

-- The `len` bytes from `p` on are neither in the buffer nor in `bf`.
abbrev pub Clear : (buffer : Ptr) (n : ℕ) (bf : Ptr) (p : Ptr) (len : ℕ) → Type 0
Clear buffer n bf p len = ((p + len ≤ buffer) ⊎ (buffer + n ≤ p)) × ((p + len ≤ bf) ⊎ (bf + 24 ≤ p))

abbrev pub is_plain : Piece → Bool
is_plain (plain c) = true
is_plain p = false

abbrev pub IsOther : ℕ → Type 0
IsOther c =
    (c < 256)
    × (c ≢ 0)
    × (c ≢ b'0')
    × (c ≢ b'l')
    × (c ≢ b'u')
    × (c ≢ b'd')
    × (c ≢ b'x')
    × (c ≢ b'X')
    × (c ≢ b'c')
    × (c ≢ b's')

module _ (Accepts : ℕ → Bool → Type 0) (buffer : Ptr) (n : ℕ) (bf : Ptr) (fuel : ℕ) where
  -- A piece that can be printed, with the memory that its text is read from.
  abbrev pub Good : Mem → Piece → Type 0
  Good mem (plain c) = (c < 256) × (c ≢ 0) × (c ≢ b'%')
  Good mem (number conv longflag width arg) =
      WidthOk width × (arg < 2 ^ 64) × Accepts (shown longflag arg) (is_unsigned conv)
  Good mem (character arg) = Unit {0}
  Good mem (text p s) = IsString mem p s × (length s < fuel) × Clear buffer n bf p (length s + 1)
  Good mem (other c) = IsOther c

pub IsString-Holds : (mem : Mem) (p : Ptr) (s : List ℕ) → IsString mem p s → Holds mem p s
IsString-Holds mem p [] h = tt
IsString-Holds mem p (c ∷ s) h = (h.0, IsString-Holds mem (p + 1) s h.2)

pub radix_of-either : (conv : Conversion) → (radix_of conv ≡ 10) ⊎ (radix_of conv ≡ 16)
radix_of-either unsigned = inl refl
radix_of-either signed = inl refl
radix_of-either hex = inr refl
radix_of-either upper_hex = inr refl

pub below-radix :
    (conv : Conversion) (value : ℕ) (unsig : Bool)
    → value < 2 ^ 64
    → magnitude value unsig < radix_of conv ^ 20
below-radix unsigned value unsig low = ground arith
below-radix signed value unsig low = ground arith
below-radix hex value unsig low = ground arith
below-radix upper_hex value unsig low = ground arith

pub length-sign : (negative : Bool) (s : List ℕ) → length (sign negative ++ s) ≤ suc (length s)
length-sign true s = omega arith
length-sign false s = omega arith

pub width_of-narrow : (width : Option (List ℕ)) → WidthOk width → width_of width ≤ 22
width_of-narrow none ok = omega arith
width_of-narrow (some ds) ok = ok.1

pub letter-nonzero : (conv : Conversion) → (letter conv == 0) ≡ false
letter-nonzero unsigned = refl
letter-nonzero signed = refl
letter-nonzero hex = refl
letter-nonzero upper_hex = refl

pub strlen_loop-text :
    {fuel : ℕ} (mem : Mem) (p : Ptr) (s : List ℕ)
    → IsString mem p s
    → length s < fuel
    → strlen_loop fuel p 0 mem ≡ some (length s)
unfolding strlen
strlen_loop-text {fuel = fuel} mem p s h low = strlen-IsString fuel mem p s h low
