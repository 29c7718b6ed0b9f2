-- ===== src/Format/Reverse.antt =====
-- libs/printk.c: the exchange at the end of `mini_itoa` reverses the text in place.
use mathlib.Core.Path.{subst}
use mathlib.Core.List.{reverse, reverse-cons}
use ucas_oslab_project.Common.{
  ℕ, zero, suc, ◌+◌, ◌-◌, ◌/◌, ◌≤◌, ◌<◌, ◌≡◌, refl, sym, ap, ◌∙◌, inl, inr, ltb, leb, Bool-cases,
  true, false, ◌||◌, if◌then◌else◌, List, [], ◌∷◌, ◌++◌, arith, length, length-append,
}
use ucas_oslab_project.LinkedList.{Ptr}
use ucas_oslab_project.Strings.{Mem}
use ucas_oslab_project.Strings.Text.{SameBut}
use ucas_oslab_project.Strings.Build.{byte_at}
use ucas_oslab_project.Format.{swap_ends, reverse_loop}
use ucas_oslab_project.Format.Digits.{Holds}

-- The `n` first bytes and the `n` last ones of `len` bytes have changed places.
record Swapped (b : Ptr) (len n : ℕ) (mem mem' : Mem) : Type 0 where
  inside :
      (q : ℕ)
      → q < len
      → mem' (b + q) ≡ (if ltb q n || leb (len - n) q then mem (b + (len - 1 - q)) else mem (b + q))
  rest : SameBut b len mem mem'

swap_ends-Swapped :
    (b : Ptr) (len n : ℕ) (mem mem' : Mem)
    → n + n + 2 ≤ len
    → Swapped b len n mem mem'
    → Swapped b len (n + 1) mem (swap_ends b len n mem')
unfolding swap_ends
swap_ends-Swapped b len n mem mem' h d = record {
  inside = λ q lt. ground (arith, d.inside q, d.inside n, d.inside (len - n - 1));
  rest = λ q out. ground (arith, d.rest q);
}

reverse_loop-Swapped :
    (n : ℕ) (b : Ptr) (len i : ℕ) (mem mem' : Mem)
    → i + n + (i + n) ≤ len
    → Swapped b len i mem mem'
    → Swapped b len (i + n) mem (reverse_loop n b len i mem')
unfolding reverse_loop
reverse_loop-Swapped zero b len i mem mem' h d =
    subst (λ i. Swapped b len i mem mem') (omega arith) d
reverse_loop-Swapped (suc n) b len i mem mem' h d =
    let after = reverse_loop n b len (i + 1) (swap_ends b len i mem') in
    subst (λ i. Swapped b len i mem after) (omega arith)
      (reverse_loop-Swapped n b len (i + 1) mem (swap_ends b len i mem') (omega arith)
        (swap_ends-Swapped b len i mem mem' (omega arith) d))

none-Swapped : (b : Ptr) (len : ℕ) (mem : Mem) → Swapped b len 0 mem mem
none-Swapped b len mem = record { inside = λ q lt. ground arith; rest = λ q out. refl }

-- The bytes in the opposite order.
pub reverse_loop-flips :
    (b : Ptr) (len : ℕ) (mem : Mem)
    → ((q : ℕ) → q < len → reverse_loop (len / 2) b len 0 mem (b + q) ≡ mem (b + (len - 1 - q)))
      × SameBut b len mem (reverse_loop (len / 2) b len 0 mem)
reverse_loop-flips b len mem =
    let d = reverse_loop-Swapped (len / 2) b len 0 mem mem (omega arith) (none-Swapped b len mem) in
    (λ q lt. ground (arith, d.inside q), d.rest)

-- Bytes and indices.
pub Holds-at :
    (mem : Mem) (p : Ptr) (s : List ℕ) (i : ℕ)
    → Holds mem p s
    → i < length s
    → mem (p + i) ≡ byte_at s i
Holds-at mem p [] i h lt = absurd (omega arith)
Holds-at mem p (c ∷ s) zero h lt = ground arith
Holds-at mem p (c ∷ s) (suc i) h lt = ground (arith, Holds-at mem (p + 1) s i h.1)

pub at-Holds :
    (mem : Mem) (p : Ptr) (s : List ℕ)
    → ((i : ℕ) → i < length s → mem (p + i) ≡ byte_at s i)
    → Holds mem p s
at-Holds mem p [] all = tt
at-Holds mem p (c ∷ s) all =
    (ground (arith, all 0), at-Holds mem (p + 1) s (λ i lt. ground (arith, all (suc i))))

byte_at-append :
    (s t : List ℕ) (i : ℕ)
    → byte_at (s ++ t) i ≡ (if ltb i (length s) then byte_at s i else byte_at t (i - length s))
byte_at-append [] t i = ground arith
byte_at-append (c ∷ s) t zero = ground arith
byte_at-append (c ∷ s) t (suc i) = ground (arith, byte_at-append s t i)

pub length-reverse : (s : List ℕ) → length (reverse s) ≡ length s
length-reverse [] = refl
length-reverse (c ∷ s) = omega (
  arith,
  ap (length {A = ℕ}) (reverse-cons c s),
  length-append (reverse s) (c ∷ []),
  length-reverse s,
)

byte_at-reverse :
    (s : List ℕ) (i : ℕ) → i < length s → byte_at (reverse s) i ≡ byte_at s (length s - 1 - i)
byte_at-reverse [] i lt = absurd (omega arith)
byte_at-reverse (c ∷ s) i lt =
    ap (λ l. byte_at l i) (reverse-cons c s)
    ∙ byte_at-append (reverse s) (c ∷ []) i
    ∙ elim (Bool-cases (ltb i (length s))) [
      | inl early ↦
          let low : ltb i (length (reverse s)) ≡ true = ground (arith, length-reverse s) in
          let place : suc (length s) - 1 - i ≡ suc (length s - 1 - i) = ground arith in
          rw (low, place) (byte_at-reverse s i (ground arith))
      | inr late ↦
          let high : ltb i (length (reverse s)) ≡ false = ground (arith, length-reverse s) in
          let place : suc (length s) - 1 - i ≡ 0 = ground arith in
          let first : i - length (reverse s) ≡ 0 = ground (arith, length-reverse s) in
          rw (high, place, first)
    ]

pub reverse_loop-reverse :
    (b : Ptr) (s : List ℕ) (mem : Mem)
    → Holds mem b s
    → Holds (reverse_loop (length s / 2) b (length s) 0 mem) b (reverse s)
      × SameBut b (length s) mem (reverse_loop (length s / 2) b (length s) 0 mem)
reverse_loop-reverse b s mem h =
    let flips = reverse_loop-flips b (length s) mem in
    (
      at-Holds _ b (reverse s) (λ i lt.
          let low : i < length s = omega (arith, length-reverse s) in
          flips.0 i low
          ∙ Holds-at mem b s (length s - 1 - i) h (omega arith)
          ∙ sym (byte_at-reverse s i low)),
      flips.1,
    )
