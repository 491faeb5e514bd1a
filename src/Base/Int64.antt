-- ===== src/Base/Int64.antt =====
-- `int64`: integers with Go's wrap-around written out.
use Prim.Native.Nat.{ℕ, suc, ◌+◌, ◌-◌, ◌%◌, ◌≤◌}
use mathlib.Core.Path.{◌≡◌}
use mathlib.Core.Bool.{Bool, true}
use native.Mathlib.Omega.{arith}
use scp_harness.Base.Tests.{ltb, leb, ◌==◌, if◌then◌else◌}

-- `negsuc n` is -(n + 1).
pub data ℤ : Type 0 where
  pos : ℕ → ℤ
  negsuc : ℕ → ℤ

abbrev pub pos_part : ℤ → ℕ
pos_part (pos n) = n
pos_part (negsuc n) = 0

abbrev pub neg_part : ℤ → ℕ
neg_part (pos n) = 0
neg_part (negsuc n) = suc n

abbrev pub sub_ℕ : ℕ → ℕ → ℤ
sub_ℕ a b = if leb b a then pos (a - b) else negsuc (b - a - 1)

infixl 65 ◌+ℤ◌ ◌-ℤ◌
infix 50 ◌≤ℤ◌
unfoldable pub ◌+ℤ◌ : ℤ → ℤ → ℤ
a +ℤ b = sub_ℕ (pos_part a + pos_part b) (neg_part a + neg_part b)

unfoldable pub ◌-ℤ◌ : ℤ → ℤ → ℤ
a -ℤ b = sub_ℕ (pos_part a + neg_part b) (neg_part a + pos_part b)

abbrev pub ◌≤ℤ◌ : ℤ → ℤ → Type 0
a ≤ℤ b = pos_part a + neg_part b ≤ pos_part b + neg_part a

abbrev pub lt_ℤ : ℤ → ℤ → Bool
lt_ℤ a b = ltb (pos_part a + neg_part b) (pos_part b + neg_part a)

abbrev pub le_ℤ : ℤ → ℤ → Bool
le_ℤ a b = leb (pos_part a + neg_part b) (pos_part b + neg_part a)

abbrev pub eq_ℤ : ℤ → ℤ → Bool
eq_ℤ a b = pos_part a + neg_part b == pos_part b + neg_part a

abbrev pub min_ℤ : ℤ → ℤ → ℤ
min_ℤ a b = if lt_ℤ b a then b else a

-- One lemma for each operation lets `omega` work with the operations shut.
pub +ℤ_parts :
    (a b : ℤ)
    → pos_part (a +ℤ b) + neg_part a + neg_part b ≡ neg_part (a +ℤ b) + pos_part a + pos_part b
unfolding ◌+ℤ◌
+ℤ_parts a b = ground arith

pub -ℤ_parts :
    (a b : ℤ)
    → pos_part (a -ℤ b) + neg_part a + pos_part b ≡ neg_part (a -ℤ b) + pos_part a + neg_part b
unfolding ◌-ℤ◌
-ℤ_parts a b = ground arith

pub eq_of_parts : (a b : ℤ) → pos_part a + neg_part b ≡ pos_part b + neg_part a → a ≡ b
eq_of_parts a b h = ground arith

pub ruleset int_laws = (arith, +ℤ_parts, -ℤ_parts, eq_of_parts)

-- math.MaxInt64
abbrev pub max_int64 : ℤ
max_int64 = pos 9223372036854775807

-- The two's complement reading of a residue modulo 2^64.
abbrev signed : ℕ → ℤ
signed r = if ltb r 9223372036854775808 then pos r else negsuc (18446744073709551615 - r)

unfoldable pub wrap64 : ℤ → ℤ
wrap64 (pos n) = signed (n % 18446744073709551616)
wrap64 (negsuc n) = signed (18446744073709551615 - n % 18446744073709551616)

-- `a + b` and `a - b` on int64.
unfoldable pub add64 : ℤ → ℤ → ℤ
add64 a b = wrap64 (a +ℤ b)

unfoldable pub sub64 : ℤ → ℤ → ℤ
sub64 a b = wrap64 (a -ℤ b)

-- What an int64 can hold.
pub record IsInt64 (a : ℤ) : Type 0 where
  pub upper : pos_part a ≤ 9223372036854775807
  pub lower : neg_part a ≤ 9223372036854775808

-- A value in range is not changed by the wrap-around.
pub wrap64-id : (a : ℤ) → IsInt64 a → wrap64 a ≡ a
unfolding wrap64
wrap64-id (pos n) h = ground arith
wrap64-id (negsuc n) h = ground arith

pub wrap64-IsInt64 : (a : ℤ) → IsInt64 (wrap64 a)
unfolding wrap64
wrap64-IsInt64 (pos n) = ground arith
wrap64-IsInt64 (negsuc n) = ground arith

pub add64-id : (a b : ℤ) → IsInt64 (a +ℤ b) → add64 a b ≡ a +ℤ b
unfolding add64
add64-id a b h = wrap64-id (a +ℤ b) h

pub sub64-id : (a b : ℤ) → IsInt64 (a -ℤ b) → sub64 a b ≡ a -ℤ b
unfolding sub64
sub64-id a b h = wrap64-id (a -ℤ b) h

-- Taking no more than is there does not wrap around.
pub sub64_within : (a b : ℤ) → IsInt64 a → pos 0 ≤ℤ b → b ≤ℤ a → sub64 a b ≡ a -ℤ b
unfolding ◌-ℤ◌
sub64_within a b h p q = sub64-id a b (ground arith)

-- Nor does adding what an upper bound leaves room for.
pub add64_within : (a b : ℤ) → pos 0 ≤ℤ a → pos 0 ≤ℤ b → a +ℤ b ≤ℤ max_int64 → add64 a b ≡ a +ℤ b
unfolding ◌+ℤ◌
add64_within a b p q h = add64-id a b (ground arith)

pub +ℤ-zero : (a : ℤ) → a +ℤ pos 0 ≡ a
+ℤ-zero a = omega int_laws

pub +ℤ_assoc : (a b c : ℤ) → a +ℤ b +ℤ c ≡ a +ℤ (b +ℤ c)
+ℤ_assoc a b c = omega int_laws

pub zero-+ℤ : (a : ℤ) → pos 0 +ℤ a ≡ a
zero-+ℤ a = omega int_laws

pub eq_ℤ-eq : (a b : ℤ) → eq_ℤ a b ≡ true → a ≡ b
eq_ℤ-eq a b h = ground arith

pub eq_ℤ-refl : (a : ℤ) → eq_ℤ a a ≡ true
eq_ℤ-refl a = ground arith
