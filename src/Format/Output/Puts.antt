-- ===== src/Format/Output/Puts.antt =====
-- libs/printk.c: `_putc` and `_puts` append to the text in the buffer what fits.
use mathlib.Core.Path.{subst}
use ucas_oslab_project.Common.{
  ℕ, zero, suc, ◌+◌, ◌-◌, ◌%◌, ◌^◌, ◌≤◌, ◌<◌, ◌≡◌, refl, sym, ap, ◌∙◌, ◌⊎◌, inl, inr, false, ltb,
  leb, if◌then◌else◌, Bool-cases, List, [], ◌∷◌, ◌++◌, arith, length, length-append,
}
use ucas_oslab_project.LinkedList.{Ptr, update}
use ucas_oslab_project.Strings.{Mem}
use ucas_oslab_project.Strings.Text.{SameBut}
use ucas_oslab_project.Format.Digits.{Holds, Holds-frame}
use ucas_oslab_project.Format.Number.{Holds-append}
use ucas_oslab_project.Format.Output.{MiniBuff, used, full, putc, puts_loop, puts_len, puts}

abbrev pub take : ℕ → List ℕ → List ℕ
take zero s = []
take (suc n) [] = []
take (suc n) (c ∷ s) = c ∷ take n s

pub take-append :
    (m : ℕ) (s t : List ℕ) → take m s ++ take (m - length (take m s)) t ≡ take m (s ++ t)
take-append zero s t = refl
take-append (suc m) [] t = let e : suc m - 0 ≡ suc m = omega arith in ap (λ k. take k t) e
take-append (suc m) (c ∷ s) t =
    let e : suc m - suc (length (take m s)) ≡ m - length (take m s) = omega arith in
    rw e (ap (λ l. c ∷ l) (take-append m s t))

pub length-take :
    (m : ℕ) (s : List ℕ) → length (take m s) ≡ (if leb m (length s) then m else length s)
length-take zero s = ground arith
length-take (suc m) [] = ground arith
length-take (suc m) (c ∷ s) = ground (arith, length-take m s)

pub take-all : (m : ℕ) (s : List ℕ) → length s ≤ m → take m s ≡ s
take-all zero [] h = refl
take-all zero (c ∷ s) h = absurd (omega arith)
take-all (suc m) [] h = refl
take-all (suc m) (c ∷ s) h = ap (λ l. c ∷ l) (take-all m s (omega arith))

puts_loop_lem :
    (n s i : ℕ) (p : Ptr) (mem : Mem) (str : List ℕ)
    → Holds mem (s + i) str
    → n ≤ length str
    → (s + i + length str ≤ p) ⊎ (p + n ≤ s + i)
    → let r = puts_loop n s i p mem in
      (r.0 ≡ p + n) × Holds r.1 p (take n str) × SameBut p n mem r.1
unfolding puts_loop
puts_loop_lem zero s i p mem str h le apart = (omega arith, tt, λ q out. refl)
puts_loop_lem (suc n) s i p mem [] h le apart = absurd (omega arith)
puts_loop_lem (suc n) s i p mem (c ∷ str) h le apart =
    let mem1 = update mem p (mem (s + i)) in
    let next : s + i + 1 ≡ s + (i + 1) = omega arith in
    let held =
      Holds-frame mem mem1 (s + (i + 1)) str (λ q low high. ground arith)
        (subst (λ q. Holds mem q str) next h.1) in
    let (p_is, wrote, same) =
      puts_loop_lem n s (i + 1) (p + 1) mem1 str held (omega arith) (ground arith) in
    (
      omega (arith, p_is),
      (same p (inl (omega arith)) ∙ ground arith, wrote),
      λ q out. same q (ground arith) ∙ ground arith,
    )

-- The buffer holds of the text `t` what fits into `n` bytes with the NUL.
pub record Filled (buffer : Ptr) (n : ℕ) (t : List ℕ) (b : MiniBuff) (mem : Mem) : Type 0 where
  pub start : b.buffer ≡ buffer
  pub capacity : b.buffer_len ≡ n
  pub place : b.pbuffer ≡ buffer + length (take (n - 1) t)
  pub text : Holds mem buffer (take (n - 1) t)

-- From the text up to here to that with `u`, within the buffer.
pub record Appended (buffer : Ptr) (n : ℕ) (t u : List ℕ) (mem : Mem) (b' : MiniBuff) (mem' : Mem)
    : Type 0 where
  pub filled : Filled buffer n (t ++ u) b' mem'
  pub rest : SameBut buffer n mem mem'

module _ (buffer : Ptr) (n : ℕ) (room : 0 < n) (n_word : n < 2 ^ 32) (t : List ℕ) (b : MiniBuff)
    (mem : Mem) (f : Filled buffer n t b mem) where
  Filled-used : used b ≡ length (take (n - 1) t)
  Filled-used = omega (arith, f.place, f.start)

  -- The `m` first bytes of a text that are copied are those that fit.
  extend :
      (u : List ℕ) (m : ℕ) (mem' : Mem) (b' : MiniBuff)
      → take m u ≡ take (n - 1 - length (take (n - 1) t)) u
      → Holds mem' b.pbuffer (take m u)
      → SameBut b.pbuffer (length (take m u) + 1) mem mem'
      → length (take (n - 1) t) + length (take m u) < n
      → b'.buffer ≡ b.buffer
      → b'.buffer_len ≡ b.buffer_len
      → b'.pbuffer ≡ b.pbuffer + length (take m u)
      → Appended buffer n t u mem b' mem'
  extend u m mem' b' fits wrote same inside e_start e_len e_place =
      let joined = ap (λ l. take (n - 1) t ++ l) fits ∙ take-append (n - 1) t u in
      let size = ap (length {A = ℕ}) (sym joined) ∙ length-append (take (n - 1) t) (take m u) in
      record {
        filled = record {
          start = e_start ∙ f.start;
          capacity = e_len ∙ f.capacity;
          place = omega (arith, e_place, f.place, size);
          text = subst (Holds mem' buffer) joined (
              Holds-append mem' buffer (take (n - 1) t) (take m u)
                (Holds-frame mem mem' buffer (take (n - 1) t)
                  (λ q low high. same q (inl (omega (arith, f.place)))) f.text)
                (subst (λ q. Holds mem' q (take m u)) f.place wrote));
        };
        rest = λ q out. same q (ground (arith, f.place));
      }

  not_over : length (take (n - 1) t) < n
  not_over = ground (arith, length-take (n - 1) t)

  pub putc-Appended :
      (c : ℕ)
      → c < 256
      → full b ≡ false
      → (let r = putc c b mem in Appended buffer n t (c ∷ []) mem r.1 r.2)
  unfolding putc
  putc-Appended c byte free =
      let low : used b + 1 < n = ground (arith, f.capacity) in
      let size : n - 1 - length (take (n - 1) t) ≡ suc (n - 2 - used b) =
        omega (arith, Filled-used) in
      rw free (
        extend (c ∷ []) 1 _ _ (rw size (ap (λ l. c ∷ l) (sym (take-all _ [] (omega arith)))))
          (ground arith, tt) (λ q out. ground arith) (omega (arith, Filled-used)) refl refl refl)

  puts_len-fits :
      (u : List ℕ) → take (puts_len (length u) b) u ≡ take (n - 1 - length (take (n - 1) t)) u
  unfolding puts_len
  puts_len-fits u = elim (Bool-cases (ltb b.buffer_len (used b + 1 + length u))) [
    | inl over ↦
        let size : (2 ^ 32 + b.buffer_len - used b - 1) % 2 ^ 32 ≡ n - 1 - length (take (n - 1) t) =
          omega (arith, Filled-used, f.capacity, not_over) in
        rw (over, size)
    | inr fits ↦ rw fits (
        take-all (length u) u (omega arith)
        ∙ sym (take-all _ u (ground (arith, Filled-used, f.capacity))))
  ]

  puts_len-low :
      (u : List ℕ)
      → (puts_len (length u) b ≤ length u) × (length (take (n - 1) t) + puts_len (length u) b < n)
  unfolding puts_len
  puts_len-low u = ground (arith, Filled-used, f.capacity, not_over)

  pub puts-Appended :
      (s : Ptr) (u : List ℕ)
      → Holds mem s u
      → (s + length u ≤ buffer) ⊎ (buffer + n ≤ s)
      → (let r = puts s (length u) b mem in Appended buffer n t u mem r.1 r.2)
  unfolding puts
  puts-Appended s u h apart =
      let m = puts_len (length u) b in
      let low = puts_len-low u in
      let from : s ≡ s + 0 = omega arith in
      let (p_is, wrote, same) =
        puts_loop_lem m s 0 b.pbuffer mem u (subst (λ q. Holds mem q u) from h) low.0
          (ground (arith, f.place)) in
      let r = puts_loop m s 0 b.pbuffer mem in
      let size : length (take m u) ≡ m = ground (arith, length-take m u) in
      extend u m (update r.1 r.0 0) (record b { pbuffer = r.0 }) (puts_len-fits u)
        (Holds-frame r.1 _ b.pbuffer (take m u) (λ q lo hi. ground (arith, p_is)) wrote)
        (λ q out. ground (arith, p_is, same q)) (omega (arith, size)) refl refl
        (omega (arith, p_is, size))
