-- ===== src/Memory/Pages.antt =====
-- kernel/mm/mm.c: the pages that a sequence of requests gets.
use mathlib.Core.Path.{subst}
use ucas_oslab_project.Common.{
  ℕ, ◌+◌, ◌*◌, ◌^◌, ◌≤◌, ◌<◌, ◌≡◌, ◌%◌, sym, ◌⊎◌, inl, inr, List, [], ◌∷◌, arith,
}
use ucas_oslab_project.Kernel.{Kernel}
use ucas_oslab_project.Memory.{
  page_size, round_up, alloc_kernel_page, alloc_user_page, freemem_kernel, freemem_user,
}
use ucas_oslab_project.Memory.Round.{round_up-page}

-- A request for pages, of the kernel's or of the user's.
pub data Request : Type 0 where
  kernel_pages : ℕ → Request
  user_pages : ℕ → Request

-- The pages that a request gets.
pub record Block : Type 0 where
  pub base : ℕ
  pub pages : ℕ

-- The blocks that requests get, one call after the other.
abbrev pub serve : Request → Kernel → Block × Kernel
serve (kernel_pages n) k =
    let (a, k') = alloc_kernel_page n k in (record { base = a; pages = n }, k')
serve (user_pages n) k = let (a, k') = alloc_user_page n k in (record { base = a; pages = n }, k')

abbrev pub serve_all : List Request → Kernel → List Block
serve_all [] k = []
serve_all (r ∷ rs) k = let (b, k') = serve r k in b ∷ serve_all rs k'

abbrev pub kernel_total : List Request → ℕ
kernel_total [] = 0
kernel_total (kernel_pages n ∷ rs) = n + kernel_total rs
kernel_total (user_pages n ∷ rs) = kernel_total rs

abbrev pub user_total : List Request → ℕ
user_total [] = 0
user_total (kernel_pages n ∷ rs) = user_total rs
user_total (user_pages n ∷ rs) = n + user_total rs

abbrev pub All : (Block → Type 0) → List Block → Type 0
All P [] = Unit {0}
All P (b ∷ bs) = P b × All P bs

All-imp : (P Q : Block → Type 0) (bs : List Block) → ((b : Block) → P b → Q b) → All P bs → All Q bs
All-imp P Q [] f h = tt
All-imp P Q (b ∷ bs) f (h, hs) = (f b h, All-imp P Q bs f hs)

-- Two blocks share no byte.
abbrev pub IsApart : Block → Block → Type 0
IsApart b c = (b.base + b.pages * 4096 ≤ c.base) ⊎ (c.base + c.pages * 4096 ≤ b.base)

abbrev pub IsSeparate : List Block → Type 0
IsSeparate [] = Unit {0}
IsSeparate (b ∷ bs) = All (IsApart b) bs × IsSeparate bs

abbrev pub IsAligned : Block → Type 0
IsAligned b = b.base % 4096 ≡ 0

-- The block is in [lo, mid) or from `hi` on.
abbrev InSpace : ℕ → ℕ → ℕ → Block → Type 0
InSpace lo mid hi b = ((lo ≤ b.base) × (b.base + b.pages * 4096 ≤ mid)) ⊎ (hi ≤ b.base)

-- Both allocators stand at a page, with room for what is asked for.
record HasRoom (mid : ℕ) (rs : List Request) (k : Kernel) : Type 0 where
  kernel_aligned : k.kern_mem_curr % 4096 ≡ 0
  user_aligned : k.user_mem_curr % 4096 ≡ 0
  kernel_room : k.kern_mem_curr + kernel_total rs * 4096 ≤ mid
  apart : mid ≤ k.user_mem_curr
  user_room : k.user_mem_curr + user_total rs * 4096 + 4096 ≤ 2 ^ 64

round_up-aligned : (a : ℕ) → a % 4096 ≡ 0 → a + 4096 ≤ 2 ^ 64 → round_up a page_size ≡ a
round_up-aligned a h b = omega (arith, round_up-page a (omega arith))

advance : (c n : ℕ) → c + n * 4096 < 2 ^ 64 → (c + n * page_size) % 2 ^ 64 ≡ c + n * 4096
advance c n h = omega arith

-- A request from an allocator that stands at a page.
pub kernel-exact :
    (n : ℕ) (k : Kernel)
    → k.kern_mem_curr % 4096 ≡ 0
    → k.kern_mem_curr + n * 4096 + 4096 ≤ 2 ^ 64
    → alloc_kernel_page n k
      ≡ (k.kern_mem_curr, record k { kern_mem_curr = k.kern_mem_curr + n * 4096 })
unfolding alloc_kernel_page
kernel-exact n k a b =
    rw (round_up-aligned k.kern_mem_curr a (omega arith), advance k.kern_mem_curr n (omega arith))

pub user-exact :
    (n : ℕ) (k : Kernel)
    → k.user_mem_curr % 4096 ≡ 0
    → k.user_mem_curr + n * 4096 + 4096 ≤ 2 ^ 64
    → alloc_user_page n k
      ≡ (k.user_mem_curr, record k { user_mem_curr = k.user_mem_curr + n * 4096 })
unfolding alloc_user_page
user-exact n k a b =
    rw (round_up-aligned k.user_mem_curr a (omega arith), advance k.user_mem_curr n (omega arith))

-- What a request that fits gets, and the state for the others.
served : (r : Request) (k : Kernel) → Block × Kernel
served (kernel_pages n) k = (
  record { base = k.kern_mem_curr; pages = n },
  record k { kern_mem_curr = k.kern_mem_curr + n * 4096 },
)
served (user_pages n) k = (
  record { base = k.user_mem_curr; pages = n },
  record k { user_mem_curr = k.user_mem_curr + n * 4096 },
)

serve-served :
    (mid : ℕ) (r : Request) (rs : List Request) (k : Kernel)
    → HasRoom mid (r ∷ rs) k
    → serve r k ≡ served r k
unfolding served
serve-served mid (kernel_pages n) rs k h =
    rw (kernel-exact n k h.kernel_aligned (omega (arith, h.kernel_room, h.apart, h.user_room)))
serve-served mid (user_pages n) rs k h =
    rw (user-exact n k h.user_aligned (omega (arith, h.user_room)))

HasRoom-served :
    (mid : ℕ) (r : Request) (rs : List Request) (k : Kernel)
    → HasRoom mid (r ∷ rs) k
    → (let (b, k') = served r k in HasRoom mid rs k')
unfolding served
HasRoom-served mid (kernel_pages n) rs k h = record {
  kernel_aligned = omega (arith, h.kernel_aligned);
  user_aligned = h.user_aligned;
  kernel_room = omega (arith, h.kernel_room);
  apart = h.apart;
  user_room = h.user_room;
}
HasRoom-served mid (user_pages n) rs k h = record {
  kernel_aligned = h.kernel_aligned;
  user_aligned = omega (arith, h.user_aligned);
  kernel_room = h.kernel_room;
  apart = omega (arith, h.apart);
  user_room = omega (arith, h.user_room);
}

serve_all-served :
    (mid : ℕ) (r : Request) (rs : List Request) (k : Kernel)
    → HasRoom mid (r ∷ rs) k
    → serve_all (r ∷ rs) k ≡ (let (b, k') = served r k in b ∷ serve_all rs k')
serve_all-served mid r rs k h = rw (serve-served mid r rs k h)

-- The space that is left after a request lies in the space before it, after the block.
InSpace-served :
    (mid : ℕ) (r : Request) (rs : List Request) (k : Kernel) (c : Block)
    → HasRoom mid (r ∷ rs) k
    → (let (b, k') = served r k in
        InSpace k'.kern_mem_curr mid k'.user_mem_curr c
        → InSpace k.kern_mem_curr mid k.user_mem_curr c × IsApart b c)
unfolding served
InSpace-served mid (kernel_pages n) rs k c h (inl (p, q)) = (inl (omega arith, q), inl p)
InSpace-served mid (kernel_pages n) rs k c h (inr p) =
    (inr p, inl (omega (arith, h.kernel_room, h.apart)))
InSpace-served mid (user_pages n) rs k c h (inl (p, q)) = (inl (p, q), inr (omega (arith, h.apart)))
InSpace-served mid (user_pages n) rs k c h (inr p) = (inr (omega arith), inl p)

served-InSpace :
    (mid : ℕ) (r : Request) (rs : List Request) (k : Kernel)
    → HasRoom mid (r ∷ rs) k
    → InSpace k.kern_mem_curr mid k.user_mem_curr (served r k).0
unfolding served
served-InSpace mid (kernel_pages n) rs k h = inl (omega arith, omega (arith, h.kernel_room))
served-InSpace mid (user_pages n) rs k h = inr (omega arith)

serve_all-InSpace :
    (mid : ℕ) (rs : List Request) (k : Kernel)
    → HasRoom mid rs k
    → All (InSpace k.kern_mem_curr mid k.user_mem_curr) (serve_all rs k)
serve_all-InSpace mid [] k h = tt
serve_all-InSpace mid (r ∷ rs) k h =
    let k' = (served r k).1 in
    subst (All (InSpace k.kern_mem_curr mid k.user_mem_curr)) (sym (serve_all-served mid r rs k h))
      (
        served-InSpace mid r rs k h,
        All-imp (InSpace k'.kern_mem_curr mid k'.user_mem_curr)
            (InSpace k.kern_mem_curr mid k.user_mem_curr) (serve_all rs k')
            (λ c p. (InSpace-served mid r rs k c h p).0)
            (serve_all-InSpace mid rs k' (HasRoom-served mid r rs k h)),
      )

serve_all-IsSeparate :
    (mid : ℕ) (rs : List Request) (k : Kernel) → HasRoom mid rs k → IsSeparate (serve_all rs k)
serve_all-IsSeparate mid [] k h = tt
serve_all-IsSeparate mid (r ∷ rs) k h =
    let k' = (served r k).1 in
    let room = HasRoom-served mid r rs k h in
    subst IsSeparate (sym (serve_all-served mid r rs k h)) (
      All-imp (InSpace k'.kern_mem_curr mid k'.user_mem_curr) (IsApart (served r k).0)
          (serve_all rs k') (λ c p. (InSpace-served mid r rs k c h p).1)
          (serve_all-InSpace mid rs k' room),
      serve_all-IsSeparate mid rs k' room,
    )

serve_all-IsAligned :
    (mid : ℕ) (rs : List Request) (k : Kernel) → HasRoom mid rs k → All IsAligned (serve_all rs k)
unfolding served
serve_all-IsAligned mid [] k h = tt
serve_all-IsAligned mid (r ∷ rs) k h = subst (All IsAligned) (sym (serve_all-served mid r rs k h)) (
  elim r as (λ r. HasRoom mid (r ∷ rs) k → IsAligned (served r k).0) [
    | kernel_pages n ↦ (λ h. h.kernel_aligned)
    | user_pages n ↦ (λ h. h.user_aligned)
  ]
      h,
  serve_all-IsAligned mid rs (served r k).1 (HasRoom-served mid r rs k h),
)

-- From the state at boot, a sequence of requests for kernel pages and user pages, of fewer than
-- 8192 kernel pages and 2^19 user pages in all, gets blocks that start at a multiple of a page and
-- of which no two share a byte.
pub serve_all-boot :
    (rs : List Request) (k : Kernel)
    → k.kern_mem_curr ≡ freemem_kernel
    → k.user_mem_curr ≡ freemem_user
    → kernel_total rs < 8192
    → user_total rs < 2 ^ 19
    → All IsAligned (serve_all rs k) × IsSeparate (serve_all rs k)
serve_all-boot rs k a b c d =
    (serve_all-IsAligned freemem_user rs k room, serve_all-IsSeparate freemem_user rs k room)
  where
    room : HasRoom freemem_user rs k
    room = record {
      kernel_aligned = omega (arith, a);
      user_aligned = omega (arith, b);
      kernel_room = omega (arith, a, c);
      apart = omega (arith, b);
      user_room = omega (arith, b, d);
    }
