-- ===== src/Strings/Text.antt =====
-- libs/string.c: a NUL-terminated text in memory, and its length.
use mathlib.Core.Path.{subst}
use ucas_oslab_project.Common.{
  ℕ, zero, suc, ◌+◌, ◌≤◌, ◌<◌, ◌≡◌, ◌≢◌, ◌∙◌, some, List, [], ◌∷◌, arith, length, ◌⊎◌,
}
use ucas_oslab_project.LinkedList.{Ptr}
use ucas_oslab_project.Strings.{Mem, strlen, strlen_loop}

-- The memory has the bytes `s`, none of them NUL, and a NUL, from `p` on.
abbrev pub IsString : Mem → Ptr → List ℕ → Type 0
IsString mem p [] = mem p ≡ 0
IsString mem p (c ∷ s) = (mem p ≡ c) × (c ≢ 0) × IsString mem (p + 1) s

-- The memories agree on the `n` bytes from `p` on, and on all others than those.
abbrev pub SameFrom : Ptr → ℕ → Mem → Mem → Type 0
SameFrom p n m m' = (q : Ptr) → p ≤ q → q < p + n → m' q ≡ m q

abbrev pub SameBut : Ptr → ℕ → Mem → Mem → Type 0
SameBut p n m m' = (q : Ptr) → (q < p) ⊎ (p + n ≤ q) → m' q ≡ m q

pub IsString-frame :
    (m m' : Mem) (p : Ptr) (s : List ℕ)
    → SameFrom p (length s + 1) m m'
    → IsString m p s
    → IsString m' p s
IsString-frame m m' p [] same h = same p (omega arith) (omega arith) ∙ h
IsString-frame m m' p (c ∷ s) same h = (
  same p (omega arith) (omega arith) ∙ h.0,
  h.1,
  IsString-frame m m' (p + 1) s (λ q a b. same q (omega arith) (omega arith)) h.2,
)

strlen_loop-IsString :
    (fuel : ℕ) (mem : Mem) (p i : ℕ) (s : List ℕ)
    → IsString mem (p + i) s
    → length s < fuel
    → strlen_loop fuel p i mem ≡ some (i + length s)
unfolding strlen_loop
strlen_loop-IsString zero mem p i s h enough = absurd (omega arith)
strlen_loop-IsString (suc fuel) mem p i [] h enough = ground arith
strlen_loop-IsString (suc fuel) mem p i (c ∷ s) h enough =
    let after : p + i + 1 ≡ p + (i + 1) = omega arith in
    ground (
      arith,
      strlen_loop-IsString fuel mem p (i + 1) s (subst (λ q. IsString mem q s) after h.2)
          (omega arith),
    )

pub strlen-IsString :
    (fuel : ℕ) (mem : Mem) (p : Ptr) (s : List ℕ)
    → IsString mem p s
    → length s < fuel
    → strlen fuel p mem ≡ some (length s)
unfolding strlen
strlen-IsString fuel mem p s h enough =
    let start : p ≡ p + 0 = omega arith in
    ground
      (arith, strlen_loop-IsString fuel mem p 0 s (subst (λ q. IsString mem q s) start h) enough)
