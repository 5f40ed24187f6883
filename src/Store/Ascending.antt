-- ===== src/Store/Ascending.antt =====
-- Lists of pairs in the byte order of their keys, as bbolt gives them.
use byz_bank.Prelude.{◌≡◌, refl, true, false, inl, inr, [], ◌∷◌, arith, Bool-cases}
use byz_bank.Prelude.Keys.{◌==◌, nat_key, GoMap, has}
use byz_bank.Prelude.MapKeys.{DistinctKeys}
use byz_bank.Prelude.Text.{Bytes, bytes_key}
use byz_bank.Store.Bbolt.{bytes_lt, Before, IsAscending}

pub bytes_lt_trans :
    (a b d : Bytes) → bytes_lt a b ≡ true → bytes_lt b d ≡ true → bytes_lt a d ≡ true
unfolding bytes_lt
bytes_lt_trans [] [] d h k = cc
bytes_lt_trans [] (y ∷ b) [] h k = cc
bytes_lt_trans [] (y ∷ b) (z ∷ d) h k = refl
bytes_lt_trans (x ∷ a) [] d h k = cc
bytes_lt_trans (x ∷ a) (y ∷ b) [] h k = cc
bytes_lt_trans (x ∷ a) (y ∷ b) (z ∷ d) h k = ground (arith, bytes_lt_trans a b d)

pub bytes_lt_irrefl : (a : Bytes) → bytes_lt a a ≡ false
unfolding bytes_lt
bytes_lt_irrefl [] = refl
bytes_lt_irrefl (x ∷ a) = ground (arith, bytes_lt_irrefl a)

module _ {V : Type 0} where
  pub Before-trans :
      (i j : Bytes) (m : GoMap Bytes V) → bytes_lt i j ≡ true → Before j m → Before i m
  Before-trans i j [] h b = tt
  Before-trans i j ((k, v) ∷ m) h b = bytes_lt_trans i j k h b

  Before-has : (k : Bytes) (m : GoMap Bytes V) → Before k m → IsAscending m → has k m ≡ false
  unfolding has
  Before-has k [] b h = refl
  Before-has k ((j, v) ∷ m) b (c, h) = elim (Bool-cases (j == k)) [
    | inl same ↦ let e : j ≡ k = (bytes_key.beq_iff j k).0 same in cc (bytes_lt_irrefl k, rw e at b)
    | inr other ↦ rw other (Before-has k m (Before-trans k j m b c) h)
  ]

  -- Rising keys are different.
  pub IsAscending-DistinctKeys : (m : GoMap Bytes V) → IsAscending m → DistinctKeys m
  IsAscending-DistinctKeys [] h = tt
  IsAscending-DistinctKeys ((k, v) ∷ m) (b, h) = (Before-has k m b h, IsAscending-DistinctKeys m h)
