-- ===== src/Strings/Copy.antt =====
-- libs/string.c: which bytes `memcpy`, `memset` and `bzero` write.
use ucas_oslab_project.Common.{ℕ, zero, suc, ◌+◌, ◌≤◌, ◌<◌, ◌≡◌, refl, ap, ◌∙◌, ◌⊎◌, arith}
use ucas_oslab_project.LinkedList.{Ptr, update}
use ucas_oslab_project.Strings.{Mem, memcpy, memset}

pub memcpy-outside :
    (dest src len : ℕ) (mem : Mem) (q : Ptr)
    → (q < dest) ⊎ (dest + len ≤ q)
    → memcpy dest src len mem q ≡ mem q
unfolding memcpy
memcpy-outside dest src zero mem q h = refl
memcpy-outside dest src (suc len) mem q h =
    memcpy-outside (dest + 1) (src + 1) len (update mem dest (mem src)) q (ground arith)
    ∙ ground arith

-- A copy to addresses below its source, or past the source's end, is right.
pub memcpy-read :
    (dest src len : ℕ) (mem : Mem) (i : ℕ)
    → (dest ≤ src) ⊎ (src + len ≤ dest)
    → i < len
    → memcpy dest src len mem (dest + i) ≡ mem (src + i)
unfolding memcpy
memcpy-read dest src zero mem i apart h = absurd (omega arith)
memcpy-read dest src (suc len) mem zero apart h =
    memcpy-outside (dest + 1) (src + 1) len (update mem dest (mem src)) (dest + 0) (ground arith)
    ∙ ground arith
memcpy-read dest src (suc len) mem (suc i) apart h =
    ap (memcpy (dest + 1) (src + 1) len (update mem dest (mem src))) (omega arith)
    ∙ memcpy-read (dest + 1) (src + 1) len (update mem dest (mem src)) i (ground arith)
        (omega arith)
    ∙ ground arith
    ∙ ap mem after
  where
    after : src + 1 + i ≡ src + suc i
    after = omega arith

pub memset-outside :
    (dest val len : ℕ) (mem : Mem) (q : Ptr)
    → (q < dest) ⊎ (dest + len ≤ q)
    → memset dest val len mem q ≡ mem q
unfolding memset
memset-outside dest val zero mem q h = refl
memset-outside dest val (suc len) mem q h =
    memset-outside (dest + 1) val len (update mem dest val) q (ground arith) ∙ ground arith

pub memset-read :
    (dest val len : ℕ) (mem : Mem) (i : ℕ) → i < len → memset dest val len mem (dest + i) ≡ val
unfolding memset
memset-read dest val zero mem i h = absurd (omega arith)
memset-read dest val (suc len) mem zero h =
    memset-outside (dest + 1) val len (update mem dest val) (dest + 0) (ground arith) ∙ ground arith
memset-read dest val (suc len) mem (suc i) h =
    ap (memset (dest + 1) val len (update mem dest val)) (omega arith)
    ∙ memset-read (dest + 1) val len (update mem dest val) i (omega arith)
