-- ===== src/Format/Output/Step.antt =====
-- libs/printk.c: what each `case` of `mini_vsnprintf` appends to the buffer.
use ucas_oslab_project.Common.{
  ℕ, ◌+◌, ◌-◌, ◌%◌, ◌^◌, ◌≤◌, ◌<◌, ◌≡◌, refl, ap, ◌∙◌, ◌⊎◌, Bool, false, not, ◌&&◌, Option, some,
  List, [], ◌∷◌, ◌++◌, arith, length,
}
use ucas_oslab_project.LinkedList.{Ptr}
use ucas_oslab_project.Strings.{Mem}
use ucas_oslab_project.Strings.Text.{IsString}
use ucas_oslab_project.Format.{mini_strlen, is_negative}
use ucas_oslab_project.Format.Digits.{Holds-frame}
use ucas_oslab_project.Format.Number.{sign}
use ucas_oslab_project.Format.Output.{
  Itoa, MiniBuff, full, Directive, Out, resume, putc, puts, print_number, print_char, print_string,
  print_directive,
}
use ucas_oslab_project.Format.Output.Puts.{
  length-take, Filled, Appended, putc-Appended, puts-Appended,
}
use ucas_oslab_project.Format.Output.Pieces.{
  ItoaLaw, Conversion, unsigned, signed, hex, upper_hex, letter, radix_of, is_unsigned, Piece,
  plain, number, character, text, other, width_of, args_of, shown, Prints,
}
use ucas_oslab_project.Format.Output.Reading.{number_length}
use ucas_oslab_project.Format.Output.Clear.{
  Untouched, is_plain, IsOther, Good, IsString-Holds, radix_of-either, below-radix, length-sign,
  width_of-narrow, strlen_loop-text,
}
use ucas_oslab_project.Format.Output.Pieces.{is_upper}

module _ {itoa : Itoa} {Accepts : ℕ → Bool → Type 0} (law : ItoaLaw itoa Accepts) (buffer : Ptr)
    (n : ℕ) (room : 0 < n) (n_word : n < 2 ^ 32) (bf : Ptr) (fuel : ℕ)
    (apart : (bf + 24 ≤ buffer) ⊎ (buffer + n ≤ bf)) where
  -- `out` goes on with `va`, and the text `u` behind `t`.
  pub record Grows (t u : List ℕ) (va : List ℕ) (mem : Mem) (out : Out) : Type 0 where
    pub args : out.0 ≡ va
    pub filled : Filled buffer n (t ++ u) out.1 out.2
    pub rest : Untouched buffer n bf mem out.2

  pub Appended-Grows :
      {t u : List ℕ} {mem mem1 : Mem} {b' : MiniBuff} {mem' : Mem} (va : List ℕ)
      → Untouched buffer n bf mem mem1
      → Appended buffer n t u mem1 b' mem'
      → Grows t u va mem (va, b', mem')
  Appended-Grows va before a = record {
    args = refl;
    filled = a.filled;
    rest = λ q o1 o2. a.rest q o1 ∙ before q o1 o2;
  }

  print_number-Grows :
      (conv : Conversion) (longflag : Bool) (width : Option (List ℕ)) (arg : ℕ) (va : List ℕ)
      (t : List ℕ) (b : MiniBuff) (mem : Mem)
      → Good Accepts buffer n bf fuel mem (number conv longflag width arg)
      → Filled buffer n t b mem
      → (u : List ℕ) × (out : Out) × (print_number itoa bf
            (radix_of conv)
            (is_upper conv)
            (is_unsigned conv)
            longflag
            (width_of width)
            (arg ∷ va, b, mem)
          ≡ some out)
        × Prints (number conv longflag width arg) u
        × Grows t u va mem out
  unfolding print_number
  print_number-Grows conv longflag width arg va t b mem good f =
      let value = shown longflag arg in
      let low : value < 2 ^ 64 = ground (arith, good.1) in
      let (len, last, digits, goes, printed, same) =
        law.prints value (radix_of conv) (is_upper conv) (is_unsigned conv) bf (width_of width) mem
          (radix_of-either conv) low good.2 in
      let u = sign (is_negative value && not (is_unsigned conv)) ++ digits in
      let narrow = width_of-narrow width good.0 in
      let short : length u ≤ 23 = ground (
        arith,
        printed.short 20 (below-radix conv value (is_unsigned conv) low) (omega arith),
        narrow,
        length-sign (is_negative value && not (is_unsigned conv)) digits,
      ) in
      let below : Untouched buffer n bf mem last =
        λ q o1 o2. same q (ground (arith, printed.len_is, short, o2)) in
      let f' : Filled buffer n t b last = record {
        start = f.start;
        capacity = f.capacity;
        place = f.place;
        text =
            Holds-frame mem last buffer _
              (λ q lo hi. same q (ground (arith, printed.len_is, short, length-take (n - 1) t)))
              f.text;
      } in
      let a =
        puts-Appended buffer n room n_word t b last f' bf u (IsString-Holds last bf u printed.text)
          (ground (arith, short)) in
      (
        u,
        resume va (puts bf (length u) b last),
        rw (goes, print_number) (ap (λ l. some (resume va (puts bf l b last))) printed.len_is),
        (digits, refl, printed.reads, printed.are_digits, printed.padded, printed.short),
        Appended-Grows va below a,
      )

  -- What stands behind the '%' of a piece, which the next format follows.
  abbrev pub directive_of : (fmt : Ptr) → Piece → Directive
  directive_of fmt (plain c) = record { ch = c; fmt = fmt; zero_pad = 0; longflag = false }
  directive_of fmt (number conv longflag width arg) = record {
    ch = letter conv;
    fmt = fmt + number_length width longflag;
    zero_pad = width_of width;
    longflag = longflag;
  }
  directive_of fmt (character arg) = record {
    ch = b'c';
    fmt = fmt + 1;
    zero_pad = 0;
    longflag = false;
  }
  directive_of fmt (text p s) = record { ch = b's'; fmt = fmt + 1; zero_pad = 0; longflag = false }
  directive_of fmt (other c) = record { ch = c; fmt = fmt + 1; zero_pad = 0; longflag = false }

  print_directive-number :
      (conv : Conversion) (longflag : Bool) (width : Option (List ℕ)) (fmt : Ptr) (out : Out)
      → print_directive itoa bf fuel
          (record { ch = letter conv; fmt = fmt; zero_pad = width_of width; longflag = longflag })
          out
        ≡ print_number itoa bf
            (radix_of conv)
            (is_upper conv)
            (is_unsigned conv)
            longflag
            (width_of width)
            out
  unfolding print_directive
  print_directive-number unsigned longflag width fmt (va, b, mem) = refl
  print_directive-number signed longflag width fmt (va, b, mem) = refl
  print_directive-number hex longflag width fmt (va, b, mem) = refl
  print_directive-number upper_hex longflag width fmt (va, b, mem) = refl

  print_directive-other :
      (c : ℕ) (fmt : Ptr) (va : List ℕ) (b : MiniBuff) (mem : Mem)
      → IsOther c
      → print_directive itoa bf fuel
          (record { ch = c; fmt = fmt; zero_pad = 0; longflag = false })
          (va, b, mem)
        ≡ some (resume va (putc c b mem))
  unfolding print_directive
  print_directive-other c fmt va b mem ok = ground (arith, ok)

  print_string-text :
      (p : Ptr) (s : List ℕ) (va : List ℕ) (b : MiniBuff) (mem : Mem)
      → IsString mem p s
      → length s < fuel
      → print_string itoa bf fuel (p ∷ va, b, mem) ≡ some (resume va (puts p (length s) b mem))
  unfolding print_string mini_strlen
  print_string-text p s va b mem h low =
      rw (strlen_loop-text {fuel = fuel} mem p s h low, print_string)

  pub print_directive-Grows :
      (p : Piece) (fmt : Ptr) (va : List ℕ) (t : List ℕ) (b : MiniBuff) (mem : Mem)
      → is_plain p ≡ false
      → Good Accepts buffer n bf fuel mem p
      → Filled buffer n t b mem
      → full b ≡ false
      → (u : List ℕ) × (out : Out) × (print_directive itoa bf fuel
            (directive_of fmt p)
            (args_of p ++ va, b, mem)
          ≡ some out)
        × Prints p u
        × Grows t u va mem out
  unfolding print_directive print_char
  print_directive-Grows (plain c) fmt va t b mem piece good f free = ground arith
  print_directive-Grows (number conv longflag width arg) fmt va t b mem piece good f free =
      let (u, out, goes, prints, grows) =
        print_number-Grows conv longflag width arg va t b mem good f in
      (
        u,
        out,
        print_directive-number conv longflag width (fmt + number_length width longflag)
              (arg ∷ va, b, mem)
            ∙ goes,
        prints,
        grows,
      )
  print_directive-Grows (character arg) fmt va t b mem piece good f free = (
    (arg % 256) ∷ [],
    resume va (putc (arg % 256) b mem),
    refl,
    refl,
    Appended-Grows va (λ q o1 o2. refl)
        (putc-Appended buffer n room n_word t b mem f (arg % 256) (omega arith) free),
  )
  print_directive-Grows (text p s) fmt va t b mem piece good f free = (
    s,
    resume va (puts p (length s) b mem),
    print_string-text p s va b mem good.0 good.1,
    refl,
    Appended-Grows va (λ q o1 o2. refl)
        (puts-Appended buffer n room n_word t b mem f p s (IsString-Holds mem p s good.0)
          (ground (arith, good.2.0))),
  )
  print_directive-Grows (other c) fmt va t b mem piece good f free = (
    c ∷ [],
    resume va (putc c b mem),
    print_directive-other c (fmt + 1) va b mem good,
    refl,
    Appended-Grows va (λ q o1 o2. refl)
        (putc-Appended buffer n room n_word t b mem f c good.0 free),
  )
