-- ===== src/Format/Output/Pieces.antt =====
-- libs/printk.c: what a format asks for, piece by piece, and what each piece prints.
use ucas_oslab_project.Common.{
  ℕ, ◌+◌, ◌-◌, ◌*◌, ◌%◌, ◌^◌, ◌≤◌, ◌<◌, ◌≡◌, ◌⊎◌, Bool, true, false, not, ◌&&◌, if◌then◌else◌,
  Option, some, none, List, [], ◌∷◌, ◌++◌, length,
}
use ucas_oslab_project.LinkedList.{Ptr}
use ucas_oslab_project.Strings.{Mem}
use ucas_oslab_project.Strings.Text.{SameBut}
use ucas_oslab_project.Format.{is_negative}
use ucas_oslab_project.Format.Digits.{AllDigits}
use ucas_oslab_project.Format.Number.{Printed, sign, scan}
use ucas_oslab_project.Format.Itoa.{magnitude}
use ucas_oslab_project.Format.Output.{Itoa}

-- What the loop relies on: for the values that it accepts, the text of the number.
pub record ItoaLaw (itoa : Itoa) (Accepts : ℕ → Bool → Type 0) : Type 0 where
  pub prints :
      (value radix : ℕ) (uppercase unsig : Bool) (buffer : Ptr) (zero_pad : ℕ) (mem : Mem)
      → (radix ≡ 10) ⊎ (radix ≡ 16)
      → value < 2 ^ 64
      → Accepts value unsig
      → (len : ℕ) × (last : Mem) × (digits : List ℕ) × (itoa value radix uppercase unsig buffer
            zero_pad mem
          ≡ some (len, last))
        × Printed uppercase radix
            (magnitude value unsig)
            (is_negative value && not unsig)
            zero_pad
            last
            buffer
            len
            digits
        × SameBut buffer (len + 1) mem last

pub data Conversion : Type 0 where
  unsigned : Conversion
  signed : Conversion
  hex : Conversion
  upper_hex : Conversion

abbrev pub letter : Conversion → ℕ
letter unsigned = b'u'
letter signed = b'd'
letter hex = b'x'
letter upper_hex = b'X'

abbrev pub radix_of : Conversion → ℕ
radix_of unsigned = 10
radix_of signed = 10
radix_of hex = 16
radix_of upper_hex = 16

abbrev pub is_upper : Conversion → Bool
is_upper upper_hex = true
is_upper c = false

abbrev pub is_unsigned : Conversion → Bool
is_unsigned signed = false
is_unsigned c = true

-- A character, a number with `l` or not and the width behind a '0', a character as an argument, a
-- text at an address, and a character behind a '%' that is no directive.
pub data Piece : Type 0 where
  plain : ℕ → Piece
  number : Conversion → (longflag : Bool) → (width : Option (List ℕ)) → (arg : ℕ) → Piece
  character : (arg : ℕ) → Piece
  text : (p : Ptr) (s : List ℕ) → Piece
  other : ℕ → Piece

abbrev pub width_text : Option (List ℕ) → List ℕ
width_text none = []
width_text (some ds) = b'0' ∷ ds

abbrev pub width_value : ℕ → List ℕ → ℕ
width_value w [] = w
width_value w (c ∷ ds) = width_value (w * 10 + c - b'0') ds

abbrev pub width_of : Option (List ℕ) → ℕ
width_of none = 0
width_of (some ds) = width_value 0 ds

abbrev pub long_text : Bool → List ℕ → List ℕ
long_text longflag s = if longflag then b'l' ∷ s else s

abbrev pub format_of : Piece → List ℕ
format_of (plain c) = c ∷ []
format_of (number conv longflag width arg) =
    b'%' ∷ (width_text width ++ long_text longflag (letter conv ∷ []))
format_of (character arg) = b'%' ∷ b'c' ∷ []
format_of (text p s) = b'%' ∷ b's' ∷ []
format_of (other c) = b'%' ∷ c ∷ []

abbrev pub args_of : Piece → List ℕ
args_of (plain c) = []
args_of (number conv longflag width arg) = arg ∷ []
args_of (character arg) = arg ∷ []
args_of (text p s) = p ∷ []
args_of (other c) = []

abbrev pub shown : (longflag : Bool) → ℕ → ℕ
shown longflag arg = if longflag then arg else arg % 2 ^ 32

-- The text `t` is what a piece prints.
abbrev pub Prints : Piece → List ℕ → Type 0
Prints (plain c) t = t ≡ c ∷ []
Prints (number conv longflag width arg) t =
    let value = shown longflag arg in
    let unsig = is_unsigned conv in
    (digits : List ℕ) × (t ≡ sign (is_negative value && not unsig) ++ digits)
    × (scan (radix_of conv) 0 digits ≡ magnitude value unsig)
    × AllDigits (is_upper conv) (radix_of conv) digits
    × (width_of width ≤ length digits)
    × ((n : ℕ)
        → magnitude value unsig < radix_of conv ^ n
        → 0 < n
        → (length digits ≤ n) ⊎ (length digits ≤ width_of width))
Prints (character arg) t = t ≡ (arg % 256) ∷ []
Prints (text p s) t = t ≡ s
Prints (other c) t = t ≡ c ∷ []

abbrev pub IsWidth : List ℕ → Type 0
IsWidth [] = Unit {0}
IsWidth (c ∷ ds) = (b'0' ≤ c) × (c ≤ b'9') × IsWidth ds

abbrev pub WidthOk : Option (List ℕ) → Type 0
WidthOk none = Unit {0}
WidthOk (some ds) = IsWidth ds × (width_value 0 ds ≤ 22)
