-- ===== src/Base/Word.antt =====
-- `i64` in a release build: the true result modulo 2^64, read as a signed number.
use invokr.Base.{
  ℕ, zero, suc, ◌+◌, ◌-◌, ◌*◌, ◌/◌, ◌%◌, ◌^◌, ◌≤◌, ◌<◌, ◌≡◌, arith, ltb, if◌then◌else◌,
}
use invokr.Base.Int.{ℤ, pos, negsuc, pos_part, neg_part, ◌+ℤ◌, ◌*ℤ◌}

abbrev pub word : ℕ
word = 2 ^ 64

abbrev pub residue : ℤ → ℕ
residue a = (pos_part a + (word - neg_part a % word)) % word

-- The number that a 64-bit pattern stands for.
abbrev pub signed : ℕ → ℤ
signed r = if ltb r (2 ^ 63) then pos r else negsuc (word - r - 1)

unfoldable pub wrap : ℤ → ℤ
wrap a = signed (residue a)

unfoldable pub mul_i64 : ℤ → ℤ → ℤ
unfolding wrap ◌*ℤ◌
mul_i64 a b = wrap (a *ℤ b)

unfoldable pub add_i64 : ℤ → ℤ → ℤ
unfolding wrap ◌+ℤ◌
add_i64 a b = wrap (a +ℤ b)

-- `/ 4`, towards zero.
abbrev pub div_four : ℤ → ℤ
div_four (pos n) = pos (n / 4)
div_four (negsuc n) = elim (suc n / 4) [ zero ↦ pos 0 | suc k ↦ negsuc k ]

-- A number that fits is kept.
pub wrap-pos : (n : ℕ) → n < 2 ^ 63 → wrap (pos n) ≡ pos n
unfolding wrap
wrap-pos n h = ground arith

pub wrap-word : (k : ℕ) → wrap (pos (k * word)) ≡ pos 0
unfolding wrap
wrap-word k = ground arith

pub mul_i64-pos : (a b : ℕ) → a * b < 2 ^ 63 → mul_i64 (pos a) (pos b) ≡ pos (a * b)
unfolding mul_i64
mul_i64-pos a b h = let e : pos a *ℤ pos b ≡ pos (a * b) = product in rw e (wrap-pos (a * b) h)
  where
    product : pos a *ℤ pos b ≡ pos (a * b)
    product = ground arith

-- A sum that is not negative and fits.
pub add_i64-pos :
    (a : ℕ) (b : ℤ)
    → neg_part b ≤ a
    → a + pos_part b < 2 ^ 63
    → add_i64 (pos a) b ≡ pos (a + pos_part b - neg_part b)
unfolding add_i64
add_i64-pos a b low high = rw sum (wrap-pos (a + pos_part b - neg_part b) (omega arith))
  where
    sum : pos a +ℤ b ≡ pos (a + pos_part b - neg_part b)
    sum = ground arith

pub mul_i64-zero : (a : ℤ) → mul_i64 a (pos 0) ≡ pos 0
unfolding mul_i64
mul_i64-zero a = rw nothing (wrap-pos 0 (omega arith))
  where
    nothing : a *ℤ pos 0 ≡ pos 0
    nothing = ground arith
