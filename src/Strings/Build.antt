-- ===== src/Strings/Build.antt =====
-- libs/string.c: the texts that `strcpy`, `strcat` and `strncpy` leave.
use ucas_oslab_project.Common.{
  ℕ, zero, suc, ◌+◌, ◌≤◌, ◌<◌, ◌≡◌, refl, ◌∙◌, ◌⊎◌, inl, some, List, [], ◌∷◌, ◌++◌, arith, length,
}
use ucas_oslab_project.LinkedList.{Ptr, update}
use ucas_oslab_project.Strings.{Mem, strcpy, strcat, strncpy}
use ucas_oslab_project.Strings.Text.{IsString, IsString-frame, SameBut}
use ucas_oslab_project.Strings.Copy.{memset-read, memset-outside}

-- `mem'` has the text `s` at `dest`, and differs from `mem` only at the `n` bytes from `p` on.
pub record Wrote (mem mem' : Mem) (dest : Ptr) (s : List ℕ) (p : Ptr) (n : ℕ) : Type 0 where
  pub text : IsString mem' dest s
  pub rest : SameBut p n mem mem'

-- The next byte of a text, while bytes before its address change.
tail-IsString :
    (mem : Mem) (src dest v : ℕ) (c : ℕ) (s : List ℕ)
    → IsString mem src (c ∷ s)
    → (dest ≤ src) ⊎ (src + length s + 2 ≤ dest)
    → IsString (update mem dest v) (src + 1) s
tail-IsString mem src dest v c s h apart =
    IsString-frame mem (update mem dest v) (src + 1) s (λ q a b. ground arith) h.2

pub strcpy-Wrote :
    (fuel : ℕ) (mem : Mem) (dest src : Ptr) (s : List ℕ)
    → IsString mem src s
    → length s < fuel
    → (dest + length s + 1 ≤ src) ⊎ (src + length s + 1 ≤ dest)
    → (mem' : Mem) × (strcpy fuel dest src mem ≡ some mem')
      × Wrote mem mem' dest s dest (length s + 1)
unfolding strcpy
strcpy-Wrote zero mem dest src s h enough apart = absurd (omega arith)
strcpy-Wrote (suc fuel) mem dest src [] h enough apart =
    (update mem dest 0, ground arith, record { text = ground arith; rest = λ q out. ground arith })
strcpy-Wrote (suc fuel) mem dest src (c ∷ s) h enough apart =
    let mem1 = update mem dest (mem src) in
    let (mem', goes, w) =
      strcpy-Wrote fuel mem1 (dest + 1) (src + 1) s
        (tail-IsString mem src dest (mem src) c s h (ground arith)) (omega arith) (ground arith) in
    (
      mem',
      ground arith,
      record {
        text = (w.rest dest (inl (omega arith)) ∙ ground arith, h.1, w.text);
        rest = λ q out. w.rest q (ground arith) ∙ ground arith;
      },
    )

-- Strcat to a text with room behind it, of a text that lies apart, ends (given more fuel than the
-- two are long), leaves the two texts one after the other at the destination, and writes to no
-- byte but those of the second text and its NUL.
pub strcat-Wrote :
    (fuel : ℕ) (mem : Mem) (dest src : Ptr) (s t : List ℕ)
    → IsString mem dest s
    → IsString mem src t
    → length s + length t < fuel
    → (dest + length s + length t + 1 ≤ src) ⊎ (src + length t + 1 ≤ dest)
    → (mem' : Mem) × (strcat fuel dest src mem ≡ some mem')
      × Wrote mem mem' dest (s ++ t) (dest + length s) (length t + 1)
unfolding strcat
strcat-Wrote zero mem dest src s t hs ht enough apart = absurd (omega arith)
strcat-Wrote (suc fuel) mem dest src [] t hs ht enough apart =
    let (mem', goes, w) = strcpy-Wrote (suc fuel) mem dest src t ht (omega arith) (ground arith) in
    (mem', ground arith, record { text = w.text; rest = λ q out. w.rest q (ground arith) })
strcat-Wrote (suc fuel) mem dest src (c ∷ s) t hs ht enough apart =
    let (mem', goes, w) =
      strcat-Wrote fuel mem (dest + 1) src s t hs.2 ht (omega arith) (ground arith) in
    (
      mem',
      ground arith,
      record {
        text = (w.rest dest (inl (omega arith)) ∙ hs.0, hs.1, w.text);
        rest = λ q out. w.rest q (ground arith);
      },
    )

-- The bytes of a text, and NULs after its end.
abbrev pub byte_at : List ℕ → ℕ → ℕ
byte_at [] i = 0
byte_at (c ∷ s) zero = c
byte_at (c ∷ s) (suc i) = byte_at s i

strncpy-outside :
    (dest src n : ℕ) (mem : Mem) (q : Ptr)
    → (q < dest) ⊎ (dest + n ≤ q)
    → strncpy dest src n mem q ≡ mem q
unfolding strncpy
strncpy-outside dest src zero mem q out = refl
strncpy-outside dest src (suc n) mem q out = ground (
  arith,
  memset-outside dest 0 (suc n) mem q out,
  strncpy-outside (dest + 1) (src + 1) n (update mem dest (mem src)) q,
)

strncpy-read :
    (mem : Mem) (dest src n : ℕ) (s : List ℕ) (i : ℕ)
    → IsString mem src s
    → (dest + n ≤ src) ⊎ (src + length s + 1 ≤ dest)
    → i < n
    → strncpy dest src n mem (dest + i) ≡ byte_at s i
unfolding strncpy
strncpy-read mem dest src zero s i h apart lt = absurd (omega arith)
strncpy-read mem dest src (suc n) [] i h apart lt =
    ground (arith, memset-read dest 0 (suc n) mem i lt)
strncpy-read mem dest src (suc n) (c ∷ s) zero h apart lt =
    ground (arith, strncpy-outside (dest + 1) (src + 1) n (update mem dest (mem src)) dest)
strncpy-read mem dest src (suc n) (c ∷ s) (suc i) h apart lt =
    let mem1 = update mem dest (mem src) in
    let here : dest + suc i ≡ dest + 1 + i = omega arith in
    ground (
      arith,
      strncpy-read mem1 (dest + 1) (src + 1) n s i
          (tail-IsString mem src dest (mem src) c s h (ground arith)) (ground arith) (omega arith),
    )

-- Strncpy of a text that lies apart from the destination writes exactly n bytes: those of the
-- text, and NULs after its end.
pub strncpy_lem :
    (mem : Mem) (dest src n : ℕ) (s : List ℕ)
    → IsString mem src s
    → (dest + n ≤ src) ⊎ (src + length s + 1 ≤ dest)
    → ((i : ℕ) → i < n → strncpy dest src n mem (dest + i) ≡ byte_at s i)
      × SameBut dest n mem (strncpy dest src n mem)
strncpy_lem mem dest src n s h apart = (
  λ i lt. strncpy-read mem dest src n s i h apart lt,
  λ q out. strncpy-outside dest src n mem q out,
)
