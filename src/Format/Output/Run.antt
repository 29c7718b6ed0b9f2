-- ===== src/Format/Output/Run.antt =====
-- libs/printk.c: `mini_vsnprintf` prints the pieces of its format one behind another, as far as the
-- buffer goes.
use mathlib.Core.Path.{subst}
use ucas_oslab_project.Common.{
  ℕ, zero, suc, ◌+◌, ◌-◌, ◌%◌, ◌^◌, ◌≤◌, ◌<◌, ◌≡◌, refl, sym, ap, ◌∙◌, ◌⊎◌, inl, inr, Bool, true,
  ◌||◌, ◌==◌, Bool-cases, some, none, List, [], ◌∷◌, ◌++◌, arith, length, length-append,
}
use ucas_oslab_project.LinkedList.{Ptr}
use ucas_oslab_project.Strings.{Mem}
use ucas_oslab_project.Strings.Text.{IsString-frame}
use ucas_oslab_project.Format.Digits.{Holds, Holds-frame}
use ucas_oslab_project.Format.Output.{
  Itoa, MiniBuff, used, full, Out, format_step, format_loop, vsnprintf,
}
use ucas_oslab_project.Format.Output.Puts.{take, length-take, take-all, Filled}
use ucas_oslab_project.Format.Output.Pieces.{
  ItoaLaw, radix_of, is_unsigned, Piece, plain, number, character, text, other, width_of, format_of,
  args_of, shown, Prints,
}
use ucas_oslab_project.Format.Output.Reading.{Holds-split}
use ucas_oslab_project.Format.Output.Clear.{Untouched, Clear, Good, radix_of-either}
use ucas_oslab_project.Format.Output.Pieces.{is_upper}
use ucas_oslab_project.Format.Output.Round.{format_step-Printed}

-- The format of a list of pieces, its arguments, and the texts it may print.
abbrev pub formats : List Piece → List ℕ
formats [] = []
formats (p ∷ ps) = format_of p ++ formats ps

abbrev pub all_args : List Piece → List ℕ
all_args [] = []
all_args (p ∷ ps) = args_of p ++ all_args ps

abbrev pub PrintsAll : List Piece → List ℕ → Type 0
PrintsAll [] t = t ≡ []
PrintsAll (p ∷ ps) t = (u : List ℕ) × (v : List ℕ) × (t ≡ u ++ v) × Prints p u × PrintsAll ps v

abbrev pub AllGood :
    (Accepts : ℕ → Bool → Type 0) (buffer : Ptr) (n : ℕ) (bf : Ptr) (fuel : ℕ)
    → Mem
    → List Piece
    → Type 0
AllGood Accepts buffer n bf fuel mem [] = Unit {0}
AllGood Accepts buffer n bf fuel mem (p ∷ ps) =
    Good Accepts buffer n bf fuel mem p × AllGood Accepts buffer n bf fuel mem ps

take-full : (m : ℕ) (t u : List ℕ) → m ≤ length t → take m (t ++ u) ≡ take m t
take-full zero t u h = refl
take-full (suc m) [] u h = absurd (omega arith)
take-full (suc m) (c ∷ t) u h = ap (λ l. c ∷ l) (take-full m t u (omega arith))

append_assoc : (s t u : List ℕ) → (s ++ t) ++ u ≡ s ++ (t ++ u)
append_assoc [] t u = refl
append_assoc (c ∷ s) t u = ap (λ l. c ∷ l) (append_assoc s t u)

append_nil : (s : List ℕ) → s ++ [] ≡ s
append_nil [] = refl
append_nil (c ∷ s) = ap (λ l. c ∷ l) (append_nil s)

format_of-some : (p : Piece) → 0 < length (format_of p)
format_of-some (plain c) = omega arith
format_of-some (number conv longflag width arg) = omega arith
format_of-some (character arg) = omega arith
format_of-some (text p s) = omega arith
format_of-some (other c) = omega arith

module _ {itoa : Itoa} {Accepts : ℕ → Bool → Type 0} (law : ItoaLaw itoa Accepts) (buffer : Ptr)
    (n : ℕ) (room : 0 < n) (n_word : n < 2 ^ 32) (bf : Ptr) (fuel : ℕ)
    (apart : (bf + 24 ≤ buffer) ⊎ (buffer + n ≤ bf)) where
  -- A piece has a text, even where the buffer is full already.
  printable :
      (mem : Mem) (p : Piece) → Good Accepts buffer n bf fuel mem p → (u : List ℕ) × Prints p u
  printable mem (plain c) good = (c ∷ [], refl)
  printable mem (number conv longflag width arg) good =
      let low : shown longflag arg < 2 ^ 64 = ground (arith, good.1) in
      let (len, last, digits, goes, printed, same) =
        law.prints (shown longflag arg) (radix_of conv) (is_upper conv) (is_unsigned conv) bf
          (width_of width) mem (radix_of-either conv) low good.2 in
      (_, (digits, refl, printed.reads, printed.are_digits, printed.padded, printed.short))
  printable mem (character arg) good = ((arg % 256) ∷ [], refl)
  printable mem (text p s) good = (s, refl)
  printable mem (other c) good = (c ∷ [], refl)

  all_printable :
      (mem : Mem) (ps : List Piece)
      → AllGood Accepts buffer n bf fuel mem ps
      → (t : List ℕ) × PrintsAll ps t
  all_printable mem [] good = ([], refl)
  all_printable mem (p ∷ ps) good =
      let (u, hu) = printable mem p good.0 in
      let (v, hv) = all_printable mem ps good.1 in (u ++ v, (u, v, refl, hu, hv))

  Good-Untouched :
      (mem mem' : Mem) (p : Piece)
      → Untouched buffer n bf mem mem'
      → Good Accepts buffer n bf fuel mem p
      → Good Accepts buffer n bf fuel mem' p
  Good-Untouched mem mem' (plain c) same good = good
  Good-Untouched mem mem' (number conv longflag width arg) same good = good
  Good-Untouched mem mem' (character arg) same good = good
  Good-Untouched mem mem' (text p s) same good = (
    IsString-frame mem mem' p s
        (λ q low high. same q (ground (arith, good.2.0)) (ground (arith, good.2.1))) good.0,
    good.1,
    good.2,
  )
  Good-Untouched mem mem' (other c) same good = good

  AllGood-Untouched :
      (mem mem' : Mem) (ps : List Piece)
      → Untouched buffer n bf mem mem'
      → AllGood Accepts buffer n bf fuel mem ps
      → AllGood Accepts buffer n bf fuel mem' ps
  AllGood-Untouched mem mem' [] same good = tt
  AllGood-Untouched mem mem' (p ∷ ps) same good =
      (Good-Untouched mem mem' p same good.0, AllGood-Untouched mem mem' ps same good.1)

  -- The loop's end: the buffer has what fits of the text `t` of before and the texts of the pieces.
  record Done (t : List ℕ) (ps : List Piece) (mem : Mem) (rounds : ℕ) (fmt : Ptr) (out : Out)
      : Type 0 where
    last : Out
    printed : List ℕ
    goes : format_loop itoa bf rounds fuel fmt out ≡ some last
    prints : PrintsAll ps printed
    filled : Filled buffer n (t ++ printed) last.1 last.2
    rest : Untouched buffer n bf mem last.2

  format_step-ends :
      (fmt : Ptr) (va : List ℕ) (b : MiniBuff) (mem : Mem)
      → (mem fmt == 0 || full b) ≡ true
      → format_step itoa bf fuel fmt (va, b, mem) ≡ some (none, (va, b, mem))
  unfolding format_step
  format_step-ends fmt va b mem e = rw e

  format_loop-ends :
      (rounds : ℕ) (fmt : Ptr) (out : Out)
      → format_step itoa bf fuel fmt out ≡ some (none, out)
      → format_loop itoa bf (suc rounds) fuel fmt out ≡ some out
  unfolding format_loop
  format_loop-ends rounds fmt out e = rw (e, format_loop)

  format_loop-goes :
      (rounds : ℕ) (fmt fmt' : Ptr) (out out' : Out)
      → format_step itoa bf fuel fmt out ≡ some (some fmt', out')
      → format_loop itoa bf (suc rounds) fuel fmt out ≡ format_loop itoa bf rounds fuel fmt' out'
  unfolding format_loop
  format_loop-goes rounds fmt fmt' out out' e = rw (e, format_loop)

  -- A full buffer takes nothing more.
  Filled-full :
      (t u : List ℕ) (b : MiniBuff) (mem : Mem)
      → Filled buffer n t b mem
      → full b ≡ true
      → Filled buffer n (t ++ u) b mem
  Filled-full t u b mem f over =
      let long : n - 1 ≤ length t =
        ground (arith, f.start, f.capacity, f.place, length-take (n - 1) t) in
      let same = sym (take-full (n - 1) t u long) in
      record {
        start = f.start;
        capacity = f.capacity;
        place = f.place ∙ ap (λ l. buffer + length l) same;
        text = subst (Holds mem buffer) same f.text;
      }

  format_loop-Done :
      (ps : List Piece) (rounds : ℕ) (fmt : Ptr) (t : List ℕ) (b : MiniBuff) (mem : Mem)
      → length (formats ps) < rounds
      → length (formats ps) < fuel
      → AllGood Accepts buffer n bf fuel mem ps
      → Holds mem fmt (formats ps ++ 0 ∷ [])
      → Clear buffer n bf fmt (length (formats ps) + 1)
      → Filled buffer n t b mem
      → Done t ps mem rounds fmt (all_args ps, b, mem)
  format_loop-Done ps zero fmt t b mem enough low good h clear f = absurd (omega arith)
  format_loop-Done [] (suc rounds) fmt t b mem enough low good h clear f = record {
    last = ([], b, mem);
    printed = [];
    goes =
        format_loop-ends rounds fmt ([], b, mem)
          (format_step-ends fmt [] b mem (ground (arith, h.0)));
    prints = refl;
    filled = subst (λ s. Filled buffer n s b mem) (sym (append_nil t)) f;
    rest = λ q o1 o2. refl;
  }
  format_loop-Done (p ∷ ps) (suc rounds) fmt t b mem enough low good h clear f =
      let out : Out = (all_args (p ∷ ps), b, mem) in
      let size = length-append (format_of p) (formats ps) in
      let (here, behind) =
        Holds-split mem fmt (format_of p) (formats ps ++ 0 ∷ [])
          (subst (Holds mem fmt) (append_assoc (format_of p) (formats ps) (0 ∷ [])) h) in
      elim (Bool-cases (full b)) [
        | inl over ↦
            let (u, prints) = all_printable mem (p ∷ ps) good in
            record {
              last = out;
              printed = u;
              goes =
                  format_loop-ends rounds fmt out
                    (format_step-ends fmt (all_args (p ∷ ps)) b mem (ground (arith, over)));
              prints = prints;
              filled = Filled-full t u b mem f over;
              rest = λ q o1 o2. refl;
            }
        | inr free ↦
            let (u, next, goes, prints, grows) =
              format_step-Printed law buffer n room n_word bf fuel apart fmt (all_args ps) t b mem f
                free p good.0 here (omega (arith, size)) in
            let next_fmt = fmt + length (format_of p) in
            let d =
              format_loop-Done ps rounds next_fmt (t ++ u) next.1 next.2
                (omega (arith, size, format_of-some p)) (omega (arith, size))
                (AllGood-Untouched mem next.2 ps grows.rest good.1)
                (Holds-frame mem next.2 next_fmt (formats ps ++ 0 ∷ [])
                  (λ q lo hi.
                    grows.rest q
                      (ground (arith, clear.0, size, length-append (formats ps) (0 ∷ [])))
                      (ground (arith, clear.1, size, length-append (formats ps) (0 ∷ []))))
                  behind)
                (ground (arith, clear.0, clear.1, size)) grows.filled in
            record {
              last = d.last;
              printed = u ++ d.printed;
              goes =
                  format_loop-goes rounds fmt next_fmt out next goes
                  ∙ ap (λ a. format_loop itoa bf rounds fuel next_fmt (a, next.1, next.2))
                      grows.args
                  ∙ d.goes;
              prints = (u, d.printed, refl, prints, d.prints);
              filled =
                  subst (λ s. Filled buffer n s d.last.1 d.last.2) (append_assoc t u d.printed)
                    d.filled;
              rest = λ q o1 o2. d.rest q o1 o2 ∙ grows.rest q o1 o2;
            }
      ]

  -- The text of the pieces, as far as it fits, and how long it is.
  pub vsnprintf-prints :
      (ps : List Piece) (fmt : Ptr) (mem : Mem)
      → length (formats ps) < fuel
      → AllGood Accepts buffer n bf fuel mem ps
      → Holds mem fmt (formats ps ++ 0 ∷ [])
      → Clear buffer n bf fmt (length (formats ps) + 1)
      → (t : List ℕ) × (mem' : Mem) × (vsnprintf itoa bf fuel buffer n fmt (all_args ps) mem
          ≡ some (length (take (n - 1) t), mem'))
        × PrintsAll ps t
        × Holds mem' buffer (take (n - 1) t)
        × Untouched buffer n bf mem mem'
  unfolding vsnprintf
  vsnprintf-prints ps fmt mem low good h clear =
      let b : MiniBuff = record { buffer = buffer; pbuffer = buffer; buffer_len = n } in
      let none_yet = sym (take-all (n - 1) [] (omega arith)) in
      let f : Filled buffer n [] b mem = record {
        start = refl;
        capacity = refl;
        place = subst (λ l. buffer ≡ buffer + length l) none_yet (omega arith);
        text = subst (Holds mem buffer) none_yet tt;
      } in
      let d = format_loop-Done ps fuel fmt [] b mem low low good h clear f in
      let size : used d.last.1 ≡ length (take (n - 1) d.printed) =
        omega (arith, d.filled.start, d.filled.place) in
      (
        d.printed,
        d.last.2,
        rw (d.goes, vsnprintf) (ap (λ r. some (r, d.last.2)) size),
        d.prints,
        d.filled.text,
        d.rest,
      )
