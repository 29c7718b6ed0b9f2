-- ===== src/Format/Radix.antt =====
-- The arithmetic of a number and its digits, for libs/printk.c.
use mathlib.Core.Path.{subst}
use native.Mathlib.Nat.{pow-suc, pow-zero}
use ucas_oslab_project.Common.{
  ℕ, zero, suc, ◌+◌, ◌*◌, ◌/◌, ◌%◌, ◌^◌, ◌<◌, ◌≡◌, ◌⊎◌, inl, inr, false, ◌==◌, arith,
}

-- A division by a radix, for the radixes in use.
pub smaller : (v radix f : ℕ) → (radix ≡ 10) ⊎ (radix ≡ 16) → v < 2 ^ suc f → v / radix < 2 ^ f
smaller v radix f (inl e) h = rw e (omega (arith, pow-suc 2 f))
smaller v radix f (inr e) h = rw e (omega (arith, pow-suc 2 f))

below_ten : (v radix n : ℕ) → radix ≡ 10 → v < radix ^ suc n → v / radix < radix ^ n
below_ten v radix n e h =
    let low : v < 10 ^ suc n = subst (λ r. v < r ^ suc n) e h in rw e (omega (arith, pow-suc 10 n))

below_sixteen : (v radix n : ℕ) → radix ≡ 16 → v < radix ^ suc n → v / radix < radix ^ n
below_sixteen v radix n e h =
    let low : v < 16 ^ suc n = subst (λ r. v < r ^ suc n) e h in rw e (omega (arith, pow-suc 16 n))

pub smaller_than :
    (v radix n : ℕ) → (radix ≡ 10) ⊎ (radix ≡ 16) → v < radix ^ suc n → v / radix < radix ^ n
smaller_than v radix n (inl e) h = below_ten v radix n e h
smaller_than v radix n (inr e) h = below_sixteen v radix n e h

pub positive : (radix n w : ℕ) → w < radix ^ n → (w == 0) ≡ false → 0 < n
positive radix zero w low more = ground (arith, pow-zero radix)
positive radix (suc n) w low more = omega arith

pub remainder :
    (v radix : ℕ)
    → (radix ≡ 10) ⊎ (radix ≡ 16)
    → (v % radix < 16) × (v % radix + radix * (v / radix) ≡ v)
remainder v radix (inl e) = rw e (omega arith)
remainder v radix (inr e) = rw e (omega arith)
