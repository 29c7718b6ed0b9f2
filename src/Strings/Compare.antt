-- ===== src/Strings/Compare.antt =====
-- libs/string.c: the two comparisons, against an order on the texts.
use ucas_oslab_project.Common.{
  ℕ, zero, suc, ◌+◌, ◌<◌, ◌≡◌, ◌↔◌, refl, Bool, true, false, some, List, [], ◌∷◌, ◌==◌, arith,
  length, Bool-cases, ◌⊎◌, inl, inr,
}
use ucas_oslab_project.Common.Int.{ℤ, pos, negsuc, sub_ℕ}
use ucas_oslab_project.LinkedList.{Ptr}
use ucas_oslab_project.Strings.{Mem, strcmp, strncmp, strncmp_loop}
use ucas_oslab_project.Strings.Text.{IsString}

-- The lexicographic order of bytes.
pub Precedes : List ℕ → List ℕ → Type 0
Precedes s [] = ⊥
Precedes [] (d ∷ t) = Unit {0}
Precedes (c ∷ s) (d ∷ t) = (c < d) ⊎ ((c ≡ d) × Precedes s t)

abbrev pub is_negative : ℤ → Bool
is_negative (pos n) = false
is_negative (negsuc n) = true

-- `r` orders the texts as `strcmp` does.
pub record Orders (s t : List ℕ) (r : ℤ) : Type 0 where
  pub equal : (r ≡ pos 0) ↔ (s ≡ t)
  pub less : (is_negative r ≡ true) ↔ Precedes s t

-- Strcmp of two texts ends, given more fuel than the first is long; its result is 0 just if the
-- texts are equal, and negative just if the first precedes the second in the order of bytes.
pub strcmp-Orders :
    (fuel : ℕ) (mem : Mem) (p q : Ptr) (s t : List ℕ)
    → IsString mem p s
    → IsString mem q t
    → length s < fuel
    → (r : ℤ) × (strcmp fuel p q mem ≡ some r) × Orders s t r
unfolding strcmp Precedes
strcmp-Orders zero mem p q s t hs ht enough = absurd (omega arith)
strcmp-Orders (suc fuel) mem p q [] [] hs ht enough = (
  pos 0,
  ground arith,
  record { equal = ((λ _. refl), (λ _. refl)); less = (λ h. cc, λ h. absurd h) },
)
strcmp-Orders (suc fuel) mem p q [] (d ∷ t) hs ht enough = (
  sub_ℕ 0 d,
  ground arith,
  record {
    equal = (λ h. ground arith, λ h. ground arith);
    less = (λ h. ground arith, λ h. ground arith);
  },
)
strcmp-Orders (suc fuel) mem p q (c ∷ s) [] hs ht enough = (
  sub_ℕ c 0,
  ground arith,
  record {
    equal = (λ h. ground arith, λ h. ground arith);
    less = (λ h. ground arith, λ h. ground arith);
  },
)
strcmp-Orders (suc fuel) mem p q (c ∷ s) (d ∷ t) hs ht enough = elim (Bool-cases (c == d)) [
  | inl e ↦
      let (r, goes, o) = strcmp-Orders fuel mem (p + 1) (q + 1) s t hs.2 ht.2 (omega arith) in
      (
        r,
        ground arith,
        record {
          equal = (λ h. ground (arith, o.equal), λ h. ground (arith, o.equal));
          less = (λ h. ground (arith, o.less), λ h. ground (arith, o.less));
        },
      )
  | inr ne ↦ (
    sub_ℕ c d,
    ground arith,
    record {
      equal = (λ h. ground arith, λ h. ground arith);
      less = (λ h. ground arith, λ h. ground arith);
    },
  )
]

-- The bytes at the indices from `i` on, `n` of them, agree.
pub Agree : ℕ → (p q : Ptr) (i : ℕ) → Mem → Type 0
Agree zero p q i mem = Unit {0}
Agree (suc n) p q i mem = (mem (p + i) ≡ mem (q + i)) × Agree n p q (i + 1) mem

Agree-at :
    (n : ℕ) (p q : Ptr) (i : ℕ) (mem : Mem) (j : ℕ)
    → Agree n p q i mem
    → j < n
    → mem (p + (i + j)) ≡ mem (q + (i + j))
unfolding Agree
Agree-at zero p q i mem j a h = absurd (omega arith)
Agree-at (suc n) p q i mem zero a h = ground arith
Agree-at (suc n) p q i mem (suc j) a h = ground (arith, Agree-at n p q (i + 1) mem j a.1)

at-Agree :
    (n : ℕ) (p q : Ptr) (i : ℕ) (mem : Mem)
    → ((j : ℕ) → j < n → mem (p + (i + j)) ≡ mem (q + (i + j)))
    → Agree n p q i mem
unfolding Agree
at-Agree zero p q i mem all = tt
at-Agree (suc n) p q i mem all =
    (ground (arith, all 0), at-Agree n p q (i + 1) mem (λ j h. ground (arith, all (suc j))))

strncmp_loop-Agree :
    (n : ℕ) (p q : Ptr) (i : ℕ) (mem : Mem) → (strncmp_loop n p q i mem ≡ pos 0) ↔ Agree n p q i mem
unfolding strncmp_loop Agree
strncmp_loop-Agree zero p q i mem = ((λ h. tt), (λ h. refl))
strncmp_loop-Agree (suc n) p q i mem = (
  λ h. ground (arith, strncmp_loop-Agree n p q (i + 1) mem),
  λ h. ground (arith, strncmp_loop-Agree n p q (i + 1) mem),
)

-- Strncmp returns 0 just if the n bytes agree, those behind a NUL included.
pub strncmp_iff :
    (p q : Ptr) (n : ℕ) (mem : Mem)
    → (strncmp p q n mem ≡ pos 0) ↔ ((j : ℕ) → j < n → mem (p + j) ≡ mem (q + j))
unfolding strncmp
strncmp_iff p q n mem = (
  λ h j lt. ground (arith, Agree-at n p q 0 mem j ((strncmp_loop-Agree n p q 0 mem).0 h) lt),
  λ all. (strncmp_loop-Agree n p q 0 mem).1 (at-Agree n p q 0 mem (λ j h. ground (arith, all j))),
)
