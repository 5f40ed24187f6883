-- ===== src/Prelude/Int.antt =====
-- Signed integers over the native numbers, under the library's names (its ℤ stands on the unary ℕ).
-- Sums and orders go through the two parts of an integer, which are numbers that `omega` reads.
use byz_bank.Prelude.{
  ℕ, suc, ◌+◌, ◌-◌, ◌/◌, ◌%◌, ◌^◌, ◌≤◌, ◌<◌, ◌≡◌, ◌↔◌, Bool, true, arith, ltb, leb, ==_iff, ◌&&◌,
  if◌then◌else◌,
}
use byz_bank.Prelude.Keys.{Key, nat_key, ◌==◌}

-- `negsuc n` is -(n + 1).
pub data ℤ : Type 0 where
  pos : ℕ → ℤ
  negsuc : ℕ → ℤ

abbrev pub pos_part : ℤ → ℕ
pos_part (pos n) = n
pos_part (negsuc n) = 0

abbrev pub neg_part : ℤ → ℕ
neg_part (pos n) = 0
neg_part (negsuc n) = suc n

-- a - b, as an integer.
abbrev pub sub_ℕ : ℕ → ℕ → ℤ
sub_ℕ a b = if leb b a then pos (a - b) else negsuc (b - a - 1)

infixl 65 ◌+ℤ◌ ◌-ℤ◌
infix 50 ◌≤ℤ◌ ◌<ℤ◌
unfoldable pub ◌+ℤ◌ : ℤ → ℤ → ℤ
a +ℤ b = sub_ℕ (pos_part a + pos_part b) (neg_part a + neg_part b)

unfoldable pub ◌-ℤ◌ : ℤ → ℤ → ℤ
a -ℤ b = sub_ℕ (pos_part a + neg_part b) (neg_part a + pos_part b)

abbrev pub ◌≤ℤ◌ : ℤ → ℤ → Type 0
a ≤ℤ b = pos_part a + neg_part b ≤ pos_part b + neg_part a

abbrev pub ◌<ℤ◌ : ℤ → ℤ → Type 0
a <ℤ b = pos_part a + neg_part b < pos_part b + neg_part a

abbrev pub ltb_ℤ : ℤ → ℤ → Bool
ltb_ℤ a b = ltb (pos_part a + neg_part b) (pos_part b + neg_part a)

-- One lemma for each operation lets `omega` work with the operations shut, at any depth.
pub +ℤ_parts :
    (a b : ℤ)
    → pos_part (a +ℤ b) + neg_part a + neg_part b ≡ neg_part (a +ℤ b) + pos_part a + pos_part b
unfolding ◌+ℤ◌
+ℤ_parts a b = ground arith

pub -ℤ_parts :
    (a b : ℤ)
    → pos_part (a -ℤ b) + neg_part a + pos_part b ≡ neg_part (a -ℤ b) + pos_part a + neg_part b
unfolding ◌-ℤ◌
-ℤ_parts a b = ground arith

pub eq_of_parts : (a b : ℤ) → pos_part a + neg_part b ≡ pos_part b + neg_part a → a ≡ b
eq_of_parts a b h = ground arith

pub ruleset int_laws = (arith, +ℤ_parts, -ℤ_parts, eq_of_parts)

abbrev pub leb_ℤ : ℤ → ℤ → Bool
leb_ℤ a b = leb (pos_part a + neg_part b) (pos_part b + neg_part a)

abbrev pub ==_ℤ : ℤ → ℤ → Bool
==_ℤ a b = (pos_part a == pos_part b) && (neg_part a == neg_part b)

pub ==_ℤ_iff : (a b : ℤ) → (==_ℤ a b ≡ true) ↔ (a ≡ b)
==_ℤ_iff a b = ground (arith, eq_of_parts a b)

instance abbrev pub int_key : Key ℤ
int_key = record { beq = ==_ℤ; beq_iff = ==_ℤ_iff }

-- Go's `/` and `%` round towards zero.
unfoldable pub quot : ℤ → ℕ → ℤ
quot (pos n) d = pos (n / d)
quot (negsuc n) d = pos 0 -ℤ pos (suc n / d)

unfoldable pub rem : ℤ → ℕ → ℤ
rem (pos n) d = pos (n % d)
rem (negsuc n) d = pos 0 -ℤ pos (suc n % d)

-- The values of Go's `int64`, and of `int` on the 64-bit platforms that the program is built for.
abbrev pub IsInt64 : ℤ → Type 0
IsInt64 z = (pos_part z < 2 ^ 63) × (neg_part z ≤ 2 ^ 63)

-- `uint64(v)`, and `int64(u)` of a `u` below 2^64.
unfoldable pub to_word : ℤ → ℕ
to_word (pos n) = n % 2 ^ 64
to_word (negsuc n) = 2 ^ 64 - 1 - n % 2 ^ 64

unfoldable pub of_word : ℕ → ℤ
of_word u = if ltb u (2 ^ 63) then pos u else negsuc (2 ^ 64 - 1 - u)

-- The value that 64 bits hold of an exact result.
unfoldable pub wrap64 : ℤ → ℤ
unfolding to_word of_word
wrap64 z = of_word (to_word z)

-- `a + b` and `a - b` at type `int64`.
infixl 65 ◌+64◌ ◌-64◌
pub ◌+64◌ : ℤ → ℤ → ℤ
a +64 b = wrap64 (a +ℤ b)

pub ◌-64◌ : ℤ → ℤ → ℤ
a -64 b = wrap64 (a -ℤ b)

pub to_word-lt : (z : ℤ) → to_word z < 2 ^ 64
unfolding to_word
to_word-lt (pos n) = omega arith
to_word-lt (negsuc n) = omega arith

-- No bits are lost of a value in range.
pub of_word-to_word : (z : ℤ) → IsInt64 z → of_word (to_word z) ≡ z
unfolding to_word of_word
of_word-to_word (pos n) h = ground arith
of_word-to_word (negsuc n) h = ground arith

pub of_word-IsInt64 : (u : ℕ) → u < 2 ^ 64 → IsInt64 (of_word u)
unfolding of_word
of_word-IsInt64 u h = ground arith

pub wrap64-eq : (z : ℤ) → IsInt64 z → wrap64 z ≡ z
unfolding wrap64
wrap64-eq z h = of_word-to_word z h

pub +64-eq : (a b : ℤ) → IsInt64 (a +ℤ b) → a +64 b ≡ a +ℤ b
unfolding ◌+64◌
+64-eq a b h = wrap64-eq (a +ℤ b) h

pub -64-eq : (a b : ℤ) → IsInt64 (a -ℤ b) → a -64 b ≡ a -ℤ b
unfolding ◌-64◌
-64-eq a b h = wrap64-eq (a -ℤ b) h

pub wrap64-IsInt64 : (z : ℤ) → IsInt64 (wrap64 z)
unfolding wrap64
wrap64-IsInt64 z = of_word-IsInt64 (to_word z) (to_word-lt z)

pub wrap64-wrap64 : (z : ℤ) → wrap64 (wrap64 z) ≡ wrap64 z
wrap64-wrap64 z = wrap64-eq (wrap64 z) (wrap64-IsInt64 z)

-- A sum or difference at `int64` is in range.
pub wrap64-+64 : (a b : ℤ) → wrap64 (a +64 b) ≡ a +64 b
unfolding ◌+64◌
wrap64-+64 a b = wrap64-wrap64 (a +ℤ b)

pub wrap64--64 : (a b : ℤ) → wrap64 (a -64 b) ≡ a -64 b
unfolding ◌-64◌
wrap64--64 a b = wrap64-wrap64 (a -ℤ b)
