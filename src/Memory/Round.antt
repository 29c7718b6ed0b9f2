-- ===== src/Memory/Round.antt =====
-- include/os/mm.h: rounding up by a mask is rounding up by a division.
use Prim.Native.Nat.{bit_and, digits, bit_and-bitwise, min}
use ucas_oslab_project.Common.{
  ℕ, zero, suc, ◌+◌, ◌-◌, ◌*◌, ◌/◌, ◌%◌, ◌^◌, ◌≤◌, ◌<◌, ◌≡◌, refl, ap, arith,
}
use ucas_oslab_project.Memory.{round_up, page_size}

-- `ones k` is the number of `k` binary ones, and `shifted k j` that number with `j` zeros after it.
ones : ℕ → ℕ
ones zero = 0
ones (suc k) = ones k * 2 + 1

shifted : ℕ → ℕ → ℕ
shifted k zero = ones k
shifted k (suc j) = shifted k j * 2

pow : ℕ → ℕ
pow zero = 1
pow (suc j) = pow j * 2

halves : ℕ → ℕ → ℕ
halves zero x = x
halves (suc j) x = halves j (x / 2)

halves-zero : (j : ℕ) → halves j 0 ≡ 0
unfolding halves
halves-zero zero = refl
halves-zero (suc j) = halves-zero j

-- The digits that a mask leaves, on enough fuel.
kept : ℕ → ℕ → ℕ → ℕ
kept mask fuel x = digits (λ b. zero) min fuel x mask

kept-ones : (k n x : ℕ) → x ≤ n → x ≤ ones k → kept (ones k) n x ≡ x
unfolding ones kept
kept-ones k zero x h le = omega arith
kept-ones k (suc n) zero h le = refl
kept-ones zero (suc n) (suc a) h le = absurd (omega arith)
kept-ones (suc k) (suc n) (suc a) h le = omega (
  arith,
  kept-ones k n (suc a / 2) (omega arith) (omega arith),
  ap (λ mask. kept mask n (suc a / 2)) half,
)
  where
    half : (ones k * 2 + 1) / 2 ≡ ones k
    half = omega arith

kept-shifted :
    (j k n x : ℕ) → x ≤ n → halves j x ≤ ones k → kept (shifted k j) n x ≡ halves j x * pow j
unfolding shifted halves pow kept
kept-shifted zero k n x h le = omega (arith, kept-ones k n x h le)
kept-shifted (suc j) k zero zero h le = ground (arith, halves-zero j)
kept-shifted (suc j) k zero (suc x) h le = absurd (omega arith)
kept-shifted (suc j) k (suc n) zero h le = ground (arith, halves-zero j)
kept-shifted (suc j) k (suc n) (suc a) h le = grind (
  arith,
  kept-shifted j k n (suc a / 2) (omega arith) le,
  ap (λ mask. kept mask n (suc a / 2)) half,
)
  where
    half : shifted k j * 2 / 2 ≡ shifted k j
    half = omega arith

bit_and-page : (x : ℕ) → x < 2 ^ 64 → bit_and x (2 ^ 64 - 4096) ≡ x / 4096 * 4096
unfolding shifted pow halves ones kept
bit_and-page x h =
    omega
      (arith, bit_and-bitwise x (2 ^ 64 - 4096), kept-shifted 12 52 x x (omega arith) (omega arith))

-- Rounding an address up to a page with a mask is dividing by the size of a page, rounding up, and
-- multiplying, if the address stands at least 4095 below 2^64.
pub round_up-page : (a : ℕ) → a + 4095 < 2 ^ 64 → round_up a page_size ≡ (a + 4095) / 4096 * 4096
unfolding round_up
round_up-page a h = omega (
  arith,
  bit_and-page ((a + 4096 - 1) % 2 ^ 64) (omega arith),
  ap (λ y. bit_and y (2 ^ 64 - 4096)) wrap,
)
  where
    wrap : (a + 4096 - 1) % 2 ^ 64 ≡ a + 4095
    wrap = omega arith
