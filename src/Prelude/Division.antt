-- ===== src/Prelude/Division.antt =====
-- Products of Python's integers, and `//` and `%`, which round towards minus infinity.
use Prim.Native.Nat.{ℕ, zero, suc, ◌*◌, ◌/◌, ◌<◌, ◌≤◌}
use mathlib.Core.Path.{◌≡◌, refl, sym, ap, subst}
use native.Mathlib.Omega.{arith}
use native.Mathlib.Nat.{div-eq_of_lt, le-div_iff_mul-le, div-mul-le_self}
use financial_engineering_sk.Prelude.Int.{ℤ, pos, negsuc, neg, ◌-ℤ◌, ◌≤ℤ◌, int_laws}

infixl 70 ◌*ℤ◌ ◌//ℤ◌ ◌%ℤ◌
unfoldable pub ◌*ℤ◌ : ℤ → ℤ → ℤ
pos m *ℤ pos n = pos (m * n)
pos m *ℤ negsuc n = neg (pos (m * suc n))
negsuc m *ℤ pos n = neg (pos (suc m * n))
negsuc m *ℤ negsuc n = pos (suc m * suc n)

-- n // d, of a divisor that is not negative
abbrev floor_div : ℤ → ℕ → ℤ
floor_div (pos n) d = pos (n / d)
floor_div (negsuc n) d = negsuc (n / d)

-- a // b, of a divisor that is not zero
unfoldable pub ◌//ℤ◌ : ℤ → ℤ → ℤ
unfolding neg
a //ℤ pos d = floor_div a d
a //ℤ negsuc d = floor_div (neg a) (suc d)

-- a % b, of a divisor that is not zero
unfoldable pub ◌%ℤ◌ : ℤ → ℤ → ℤ
unfolding ◌//ℤ◌ ◌*ℤ◌ ◌-ℤ◌
a %ℤ b = a -ℤ (a //ℤ b) *ℤ b

neg-neg : (a : ℤ) → neg (neg a) ≡ a
neg-neg a = omega int_laws

pub neg_zero : neg (pos 0) ≡ pos 0
neg_zero = omega int_laws

pub neg-suc : (n : ℕ) → neg (pos (suc n)) ≡ negsuc n
neg-suc n = omega int_laws

pub neg_negsuc : (n : ℕ) → neg (negsuc n) ≡ pos (suc n)
neg_negsuc n = omega int_laws

neg-*ℤ : (a b : ℤ) → neg a *ℤ b ≡ neg (a *ℤ b)
unfolding ◌*ℤ◌
neg-*ℤ (pos zero) (pos n) = rw neg_zero (omega int_laws)
neg-*ℤ (pos zero) (negsuc n) = rw neg_zero (omega int_laws)
neg-*ℤ (pos (suc m)) (pos n) = rw (neg-suc m) refl
neg-*ℤ (pos (suc m)) (negsuc n) = rw (neg-suc m, neg-neg (pos (suc m * suc n))) refl
neg-*ℤ (negsuc m) (pos n) = rw (neg_negsuc m, neg-neg (pos (suc m * n))) refl
neg-*ℤ (negsuc m) (negsuc n) = rw (neg_negsuc m) refl

*ℤ-neg : (a b : ℤ) → a *ℤ neg b ≡ neg (a *ℤ b)
unfolding ◌*ℤ◌
*ℤ-neg (pos m) (pos zero) = rw neg_zero (omega int_laws)
*ℤ-neg (negsuc m) (pos zero) = rw neg_zero (omega int_laws)
*ℤ-neg (pos m) (pos (suc n)) = rw (neg-suc n) refl
*ℤ-neg (negsuc m) (pos (suc n)) = rw (neg-suc n, neg-neg (pos (suc m * suc n))) refl
*ℤ-neg (pos m) (negsuc n) = rw (neg_negsuc n, neg-neg (pos (m * suc n))) refl
*ℤ-neg (negsuc m) (negsuc n) = rw (neg_negsuc n) refl

-- The factors after the first may change places: for natural numbers, and then for each sign.
abbrev pub Swaps : ℤ → ℤ → ℤ → Type 0
Swaps a b c = a *ℤ b *ℤ c ≡ a *ℤ c *ℤ b

swap_naturals : (a b c : ℕ) → Swaps (pos a) (pos b) (pos c)
unfolding ◌*ℤ◌
swap_naturals a b c = ap pos (grind arith)

swap_first : (a b c : ℤ) → Swaps a b c → Swaps (neg a) b c
swap_first a b c h = rw (neg-*ℤ a b, neg-*ℤ a c, neg-*ℤ (a *ℤ b) c, neg-*ℤ (a *ℤ c) b) (ap neg h)

swap_second : (a b c : ℤ) → Swaps a b c → Swaps a (neg b) c
swap_second a b c h = rw (*ℤ-neg a b, neg-*ℤ (a *ℤ b) c, *ℤ-neg (a *ℤ c) b) (ap neg h)

swap_positive : (a : ℕ) (b c : ℤ) → Swaps (pos a) b c
swap_positive a (pos b) (pos c) = swap_naturals a b c
swap_positive a (negsuc b) (pos c) =
    subst (λ (x : ℤ). Swaps (pos a) x (pos c)) (neg-suc b)
      (swap_second (pos a) (pos (suc b)) (pos c) (swap_naturals a (suc b) c))
swap_positive a (pos b) (negsuc c) =
    subst (λ (x : ℤ). Swaps (pos a) (pos b) x) (neg-suc c)
      (sym (swap_second (pos a) (pos (suc c)) (pos b) (swap_naturals a (suc c) b)))
swap_positive a (negsuc b) (negsuc c) =
    subst (λ (x : ℤ). Swaps (pos a) x (negsuc c)) (neg-suc b)
      (swap_second (pos a) (pos (suc b)) (negsuc c) (
        subst (λ (x : ℤ). Swaps (pos a) (pos (suc b)) x) (neg-suc c)
          (sym
            (swap_second (pos a) (pos (suc c)) (pos (suc b)) (swap_naturals a (suc c) (suc b))))))

pub *ℤ_swap : (a b c : ℤ) → Swaps a b c
*ℤ_swap (pos a) b c = swap_positive a b c
*ℤ_swap (negsuc a) b c =
    subst (λ (x : ℤ). Swaps x b c) (neg-suc a)
      (swap_first (pos (suc a)) b c (swap_positive (suc a) b c))

-- -(-n // d), which rounds up.
pub ceil_div_suc : (n d : ℕ) → neg (neg (pos (suc n)) //ℤ pos d) ≡ pos (suc (n / d))
unfolding ◌//ℤ◌
ceil_div_suc n d = rw (neg-suc n, neg_negsuc (n / d)) refl

ceil_div_zero : (d : ℕ) → 0 < d → neg (neg (pos 0) //ℤ pos d) ≡ pos 0
unfolding ◌//ℤ◌
ceil_div_zero d h = rw (neg_zero, div-eq_of_lt h, neg_zero) refl

div_mono : (m n d : ℕ) → 0 < d → m ≤ n → m / d ≤ n / d
div_mono m n d h le = (le-div_iff_mul-le h).1 (omega (arith, div-mul-le_self m d))

pub ceil_div_mono :
    (m n d : ℕ) → 0 < d → m ≤ n → neg (neg (pos m) //ℤ pos d) ≤ℤ neg (neg (pos n) //ℤ pos d)
ceil_div_mono zero zero d h le = rw (ceil_div_zero d h) (omega arith)
ceil_div_mono zero (suc n) d h le = rw (ceil_div_zero d h, ceil_div_suc n d) (omega arith)
ceil_div_mono (suc m) zero d h le = absurd (omega arith)
ceil_div_mono (suc m) (suc n) d h le =
    rw (ceil_div_suc m d, ceil_div_suc n d) (omega (arith, div_mono m n d h (omega arith)))
