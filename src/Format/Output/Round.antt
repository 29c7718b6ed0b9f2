-- ===== src/Format/Output/Round.antt =====
-- libs/printk.c: one round of the loop of `mini_vsnprintf` prints one piece of the format.
use ucas_oslab_project.Common.{
  ℕ, ◌+◌, ◌^◌, ◌≤◌, ◌<◌, ◌≡◌, ◌≢◌, refl, ap, ◌∙◌, ◌⊎◌, Bool, true, false, ◌==◌, Option, some, none,
  List, [], ◌∷◌, ◌++◌, arith, length, length-append,
}
use ucas_oslab_project.LinkedList.{Ptr}
use ucas_oslab_project.Strings.{Mem}
use ucas_oslab_project.Format.Digits.{Holds}
use ucas_oslab_project.Format.Output.{
  Itoa, MiniBuff, full, Directive, Out, resume, putc, print_directive, read_directive, format_step,
}
use ucas_oslab_project.Format.Output.Puts.{Filled, putc-Appended}
use ucas_oslab_project.Format.Output.Pieces.{
  ItoaLaw, Conversion, letter, Piece, plain, number, character, text, other, width_text, long_text,
  format_of, args_of, Prints,
}
use ucas_oslab_project.Format.Output.Reading.{
  number_length, read_directive-one, read_directive-number,
}
use ucas_oslab_project.Format.Output.Clear.{Good, is_plain, letter-nonzero}
use ucas_oslab_project.Format.Output.Step.{
  Grows, Appended-Grows, directive_of, print_directive-Grows,
}

length-number :
    (width : Option (List ℕ)) (longflag : Bool) (conv : Conversion)
    → length (width_text width ++ long_text longflag (letter conv ∷ []))
      ≡ number_length width longflag
length-number none true conv = refl
length-number none false conv = refl
length-number (some ds) true conv = omega (arith, length-append ds (b'l' ∷ letter conv ∷ []))
length-number (some ds) false conv = omega (arith, length-append ds (letter conv ∷ []))

module _ {itoa : Itoa} {Accepts : ℕ → Bool → Type 0} (law : ItoaLaw itoa Accepts) (buffer : Ptr)
    (n : ℕ) (room : 0 < n) (n_word : n < 2 ^ 32) (bf : Ptr) (fuel : ℕ)
    (apart : (bf + 24 ≤ buffer) ⊎ (buffer + n ≤ bf)) where
  format_step-directive :
      (fmt : Ptr) (d : Directive) (va : List ℕ) (b : MiniBuff) (mem : Mem) (out : Out)
      → mem fmt ≡ b'%'
      → full b ≡ false
      → read_directive fuel (fmt + 1) mem ≡ some d
      → (d.ch == 0) ≡ false
      → print_directive itoa bf fuel d (va, b, mem) ≡ some out
      → format_step itoa bf fuel fmt (va, b, mem) ≡ some (some d.fmt, out)
  unfolding format_step
  format_step-directive fmt d va b mem out percent free reads nonzero prints =
      rw (percent, free, reads, nonzero, prints, format_step)

  -- The directive of a piece stands in the format.
  read_directive-piece :
      (p : Piece) (fmt : Ptr) (mem : Mem)
      → is_plain p ≡ false
      → Good Accepts buffer n bf fuel mem p
      → Holds mem fmt (format_of p)
      → length (format_of p) < fuel
      → (mem fmt ≡ b'%')
        × (read_directive fuel (fmt + 1) mem
            ≡ some (directive_of law buffer n room n_word bf fuel apart (fmt + 1) p))
        × (((directive_of law buffer n room n_word bf fuel apart (fmt + 1) p).ch == 0) ≡ false)
        × ((directive_of law buffer n room n_word bf fuel apart (fmt + 1) p).fmt
            ≡ fmt + length (format_of p))
  read_directive-piece (plain c) fmt mem piece good h low = ground arith
  read_directive-piece (number conv longflag width arg) fmt mem piece good h low =
      let size = length-number width longflag conv in
      (
        h.0,
        read_directive-number fuel (fmt + 1) mem conv longflag width h.1 good.0
            (omega (arith, size)),
        letter-nonzero conv,
        omega (arith, size),
      )
  read_directive-piece (character arg) fmt mem piece good h low = (
    h.0,
    read_directive-one fuel (fmt + 1) mem b'c' h.1.0 (λ e. omega arith) (λ e. omega arith),
    refl,
    omega arith,
  )
  read_directive-piece (text p s) fmt mem piece good h low = (
    h.0,
    read_directive-one fuel (fmt + 1) mem b's' h.1.0 (λ e. omega arith) (λ e. omega arith),
    refl,
    omega arith,
  )
  read_directive-piece (other c) fmt mem piece good h low = (
    h.0,
    read_directive-one fuel (fmt + 1) mem c h.1.0 good.2 good.3,
    ground (arith, good.1),
    omega arith,
  )

  format_step-plain :
      (c : ℕ) (fmt : Ptr) (va : List ℕ) (b : MiniBuff) (mem : Mem)
      → mem fmt ≡ c
      → c ≢ 0
      → c ≢ b'%'
      → full b ≡ false
      → format_step itoa bf fuel fmt (va, b, mem) ≡ some (some (fmt + 1), resume va (putc c b mem))
  unfolding format_step
  format_step-plain c fmt va b mem reads some_char no_percent free =
      let e1 : (c == 0) ≡ false = ground (arith, some_char) in
      let e2 : (c == b'%') ≡ false = ground (arith, no_percent) in rw (reads, e1, e2, free)

  -- One round prints one piece.
  module _ (fmt : Ptr) (va : List ℕ) (t : List ℕ) (b : MiniBuff) (mem : Mem)
      (f : Filled buffer n t b mem) (free : full b ≡ false) where
    abbrev pub Printed : Piece → Type 0
    Printed p =
        (u : List ℕ) × (out : Out) × (format_step itoa bf fuel fmt (args_of p ++ va, b, mem)
          ≡ some (some (fmt + length (format_of p)), out))
        × Prints p u
        × Grows law buffer n room n_word bf fuel apart t u va mem out

    piece-Printed :
        (p : Piece)
        → is_plain p ≡ false
        → Good Accepts buffer n bf fuel mem p
        → Holds mem fmt (format_of p)
        → length (format_of p) < fuel
        → Printed p
    piece-Printed p piece good h low =
        let (percent, reads, nonzero, after) = read_directive-piece p fmt mem piece good h low in
        let (u, out, goes, prints, grows) =
          print_directive-Grows law buffer n room n_word bf fuel apart p (fmt + 1) va t b mem piece
            good f free in
        (
          u,
          out,
          format_step-directive fmt _ (args_of p ++ va) b mem out percent free reads nonzero goes
              ∙ ap (λ q. some (some q, out)) after,
          prints,
          grows,
        )

    pub format_step-Printed :
        (p : Piece)
        → Good Accepts buffer n bf fuel mem p
        → Holds mem fmt (format_of p)
        → length (format_of p) < fuel
        → Printed p
    format_step-Printed (plain c) good h low = (
      c ∷ [],
      resume va (putc c b mem),
      format_step-plain c fmt va b mem h.0 good.1 good.2 free,
      refl,
      Appended-Grows law buffer n room n_word bf fuel apart va (λ q o1 o2. refl)
          (putc-Appended buffer n room n_word t b mem f c good.0 free),
    )
    format_step-Printed (number conv longflag width arg) good h low =
        piece-Printed (number conv longflag width arg) refl good h low
    format_step-Printed (character arg) good h low = piece-Printed (character arg) refl good h low
    format_step-Printed (text p s) good h low = piece-Printed (text p s) refl good h low
    format_step-Printed (other c) good h low = piece-Printed (other c) refl good h low
