-- ===== src/Store/Order.antt =====
-- The order of the keys of the datastore, `seqKey` of internal/store/store.go: that of the numbers, with the key
-- "seq" behind them.
use native.Mathlib.Nat.{pow-suc}
use byz_bank.Prelude.{
  ℕ, zero, suc, ◌*◌, ◌/◌, ◌%◌, ◌^◌, ◌<◌, ◌≡◌, refl, sym, ◌∙◌, true, ◌⊎◌, inl, inr, [], ◌∷◌, ◌++◌,
  arith, length,
}
use byz_bank.Prelude.Keys.{nat_key}
use byz_bank.Prelude.Text.{Bytes}
use byz_bank.Store.Bbolt.{bytes_lt}
use byz_bank.Store.Codec.{big_endian, length-big_endian, seq_key}
use byz_bank.Store.{meta_datastore_seq}

snoc_lt :
    (a b : ℕ) (xs ys : Bytes)
    → length xs ≡ length ys
    → bytes_lt xs ys ≡ true
    → bytes_lt (xs ++ (a ∷ [])) (ys ++ (b ∷ [])) ≡ true
unfolding bytes_lt
snoc_lt a b [] [] same h = cc
snoc_lt a b [] (y ∷ ys) same h = cc
snoc_lt a b (x ∷ xs) [] same h = cc
snoc_lt a b (x ∷ xs) (y ∷ ys) same h = ground (arith, snoc_lt a b xs ys)

last_lt : (a b : ℕ) (xs : Bytes) → a < b → bytes_lt (xs ++ (a ∷ [])) (xs ++ (b ∷ [])) ≡ true
unfolding bytes_lt
last_lt a b [] h = ground arith
last_lt a b (x ∷ xs) h = ground (arith, last_lt a b xs h)

parts_lt : (i j : ℕ) → i < j → (i / 256 < j / 256) ⊎ ((i / 256 ≡ j / 256) × (i % 256 < j % 256))
parts_lt i j h = ground arith

pub big_endian-lt :
    (k i j : ℕ) → i < j → j < 256 ^ k → bytes_lt (big_endian k i) (big_endian k j) ≡ true
unfolding big_endian
big_endian-lt zero i j h le = absurd (omega arith)
big_endian-lt (suc k) i j h le = elim (parts_lt i j h) [
  | inl high ↦
      snoc_lt (i % 256) (j % 256) (big_endian k (i / 256)) (big_endian k (j / 256))
        (length-big_endian k (i / 256) ∙ sym (length-big_endian k (j / 256)))
        (big_endian-lt k (i / 256) (j / 256) high (omega (arith, pow-suc 256 k)))
  | inr (same, low) ↦ rw same (last_lt (i % 256) (j % 256) (big_endian k (j / 256)) low)
]

-- Begins with a byte below 's'.
abbrev IsLow : Bytes → Type 0
IsLow b = (h : ℕ) × (t : Bytes) × (b ≡ h ∷ t) × (h < 115)

big_endian-IsLow : (k i : ℕ) → i < 115 * 256 ^ k → IsLow (big_endian (suc k) i)
unfolding big_endian
big_endian-IsLow zero i h = (i % 256, [], refl, omega arith)
big_endian-IsLow (suc k) i h =
    let (b, t, is, low) = big_endian-IsLow k (i / 256) (omega (arith, pow-suc 256 k)) in
    (b, t ++ ((i % 256) ∷ []), rw is refl, low)

pub seq_key-lt : (i j : ℕ) → i < j → j < 2 ^ 62 → bytes_lt (seq_key i) (seq_key j) ≡ true
unfolding seq_key
seq_key-lt i j h le = big_endian-lt 8 i j h (omega arith)

pub seq_key-meta : (i : ℕ) → i < 2 ^ 62 → bytes_lt (seq_key i) meta_datastore_seq ≡ true
unfolding seq_key bytes_lt
seq_key-meta i h = let (b, t, is, low) = big_endian-IsLow 7 i (omega arith) in rw is (ground arith)
