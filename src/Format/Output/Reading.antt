-- ===== src/Format/Output/Reading.antt =====
-- libs/printk.c: how `mini_vsnprintf` reads what stands behind a `%`.
use mathlib.Core.Path.{subst}
use ucas_oslab_project.Common.{
  ℕ, zero, suc, ◌+◌, ◌-◌, ◌*◌, ◌%◌, ◌≤◌, ◌<◌, ◌≡◌, ◌≢◌, refl, ap, Bool, true, false, ◌==◌,
  if◌then◌else◌, Option, some, none, List, [], ◌∷◌, ◌++◌, arith, length,
}
use ucas_oslab_project.LinkedList.{Ptr}
use ucas_oslab_project.Strings.{Mem}
use ucas_oslab_project.Format.Digits.{Holds}
use ucas_oslab_project.Format.Number.{Holds-append}
use ucas_oslab_project.Format.Output.{pad_loop, read_long, read_directive}
use ucas_oslab_project.Format.Output.Pieces.{
  Conversion, unsigned, signed, hex, upper_hex, letter, width_text, width_value, width_of,
  long_text, IsWidth, WidthOk,
}

width_value-grows : (w : ℕ) (ds : List ℕ) → IsWidth ds → w ≤ width_value w ds
width_value-grows w [] h = omega arith
width_value-grows w (c ∷ ds) h = omega (arith, width_value-grows (w * 10 + c - b'0') ds h.2, h.0)

pad_loop_lem :
    (fuel : ℕ) (fmt : Ptr) (w : ℕ) (mem : Mem) (ds : List ℕ) (c : ℕ)
    → Holds mem fmt (ds ++ c ∷ [])
    → IsWidth ds
    → b'9' < c
    → width_value w ds ≤ 22
    → length ds < fuel
    → pad_loop fuel fmt w mem ≡ some (c, fmt + length ds + 1, width_value w ds)
unfolding pad_loop
pad_loop_lem zero fmt w mem ds c h ok big low enough = absurd (omega arith)
pad_loop_lem (suc fuel) fmt w mem [] c h ok big low enough = ground (arith, h.0)
pad_loop_lem (suc fuel) fmt w mem (d ∷ ds) c h ok big low enough =
    let grows = width_value-grows (w * 10 + d - b'0') ds ok.2 in
    let small : (w * 10 + d - b'0') % 256 ≡ w * 10 + d - b'0' = omega (arith, grows) in
    ground (
      arith,
      h.0,
      ok.0,
      ok.1,
      small,
      pad_loop_lem fuel (fmt + 1) (w * 10 + d - b'0') mem ds c h.1 ok.2 big low (omega arith),
    )

pub read_directive-one :
    (fuel : ℕ) (fmt : Ptr) (mem : Mem) (c : ℕ)
    → mem fmt ≡ c
    → c ≢ b'0'
    → c ≢ b'l'
    → read_directive fuel fmt mem
      ≡ some (record { ch = c; fmt = fmt + 1; zero_pad = 0; longflag = false })
unfolding read_directive read_long
read_directive-one fuel fmt mem c e not_zero not_l = ground (arith, e)

letter-facts : (conv : Conversion) → (b'9' < letter conv) × (letter conv ≢ b'l')
letter-facts unsigned = (omega arith, λ e. omega arith)
letter-facts signed = (omega arith, λ e. omega arith)
letter-facts hex = (omega arith, λ e. omega arith)
letter-facts upper_hex = (omega arith, λ e. omega arith)

-- The length of what stands behind the '%' of a number.
abbrev pub number_length : Option (List ℕ) → Bool → ℕ
number_length width longflag = length (width_text width) + (if longflag then 1 else 0) + 1

read_long-number :
    (conv : Conversion) (longflag : Bool) (p zero_pad : ℕ) (mem : Mem) (c : ℕ)
    → Holds mem p (long_text longflag (letter conv ∷ []))
    → c ≡ mem p
    → read_long c (p + 1) zero_pad mem ≡ record {
      ch = letter conv;
      fmt = p + (if longflag then 1 else 0) + 1;
      zero_pad = zero_pad;
      longflag = longflag;
    }
unfolding read_long
read_long-number conv true p zero_pad mem c h e = ground (arith, h.0, h.1.0)
read_long-number conv false p zero_pad mem c h e = ground (arith, h.0, letter-facts conv)

first_char : (conv : Conversion) → Bool → ℕ
first_char conv longflag = if longflag then b'l' else letter conv

first_char-big : (conv : Conversion) (longflag : Bool) → b'9' < first_char conv longflag
unfolding first_char
first_char-big conv true = omega arith
first_char-big conv false = (letter-facts conv).0

pub Holds-split :
    (mem : Mem) (p : Ptr) (s t : List ℕ)
    → Holds mem p (s ++ t)
    → Holds mem p s × Holds mem (p + length s) t
Holds-split mem p [] t h = (tt, subst (λ q. Holds mem q t) (omega arith) h)
Holds-split mem p (c ∷ s) t h =
    let (hs, ht) = Holds-split mem (p + 1) s t h.1 in
    ((h.0, hs), subst (λ q. Holds mem q t) (omega arith) ht)

first_char-read :
    (mem : Mem) (p : Ptr) (conv : Conversion) (longflag : Bool)
    → Holds mem p (long_text longflag (letter conv ∷ []))
    → mem p ≡ first_char conv longflag
unfolding first_char
first_char-read mem p conv true h = h.0
first_char-read mem p conv false h = h.0

pub read_directive-number :
    (fuel : ℕ) (fmt : Ptr) (mem : Mem) (conv : Conversion) (longflag : Bool)
    (width : Option (List ℕ))
    → Holds mem fmt (width_text width ++ long_text longflag (letter conv ∷ []))
    → WidthOk width
    → length (width_text width) < fuel
    → read_directive fuel fmt mem
      ≡ some (record {
        ch = letter conv;
        fmt = fmt + number_length width longflag;
        zero_pad = width_of width;
        longflag = longflag;
      })
unfolding read_directive
read_directive-number fuel fmt mem conv longflag none h ok enough =
    let big = first_char-big conv longflag in
    let reads = first_char-read mem fmt conv longflag h in
    let place : fmt + number_length none longflag ≡ fmt + (if longflag then 1 else 0) + 1 =
      omega arith in
    ground (arith, big, reads, place, read_long-number conv longflag fmt 0 mem (mem fmt) h refl)
read_directive-number fuel fmt mem conv longflag (some ds) h ok enough =
    let q = fmt + 1 + length ds in
    let tail = Holds-split mem (fmt + 1) ds (long_text longflag (letter conv ∷ [])) h.1 in
    let reads = first_char-read mem q conv longflag tail.1 in
    let held = Holds-append mem (fmt + 1) ds (mem q ∷ []) tail.0 (refl, tt) in
    let big = first_char-big conv longflag in
    let goes =
      pad_loop_lem fuel (fmt + 1) 0 mem ds (mem q) held ok.0 (omega (arith, reads, big)) ok.1
        (omega (arith, enough)) in
    let place : fmt + number_length (some ds) longflag ≡ q + (if longflag then 1 else 0) + 1 =
      omega arith in
    let known : (mem fmt == b'0') ≡ true = ground (arith, h.0) in
    rw (known, goes, place)
      (ap some (read_long-number conv longflag q (width_value 0 ds) mem (mem q) tail.1 refl))
