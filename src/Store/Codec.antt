-- ===== src/Store/Codec.antt =====
-- The keys and the numbers of internal/store/store.go as bytes: `itemKey`, `seqKey`,
-- `int64ToBytes` and `bytesToInt64`.
use native.Mathlib.Nat.{pow-suc}
use byz_bank.Prelude.{
  ℕ, zero, suc, ◌+◌, ◌-◌, ◌*◌, ◌/◌, ◌%◌, ◌^◌, ◌<◌, ◌≡◌, refl, ◌∙◌, [], ◌∷◌, ◌++◌, if◌then◌else◌,
  arith, length, length-append,
}
use byz_bank.Prelude.Int.{ℤ, to_word, of_word, wrap64, to_word-lt, IsInt64, wrap64-eq}
use byz_bank.Prelude.Keys.{◌==◌, nat_key}
use byz_bank.Prelude.Text.{Bytes, itoa, itoa-injective}

unfoldable pub item_key : ℤ → Bytes
item_key item = itoa item

-- Two items never share a key.
pub item_key-injective : (x y : ℤ) → item_key x ≡ item_key y → x ≡ y
unfolding item_key
item_key-injective x y h = itoa-injective x y h

-- `binary.BigEndian`: the low `k` bytes of `n`, and the number that bytes spell on top of `acc`.
unfoldable pub big_endian : ℕ → ℕ → Bytes
big_endian zero n = []
big_endian (suc k) n = big_endian k (n / 256) ++ ((n % 256) ∷ [])

unfoldable pub bytes_value : ℕ → Bytes → ℕ
bytes_value acc [] = acc
bytes_value acc (c ∷ cs) = bytes_value (acc * 256 + c) cs

bytes_value-append :
    (acc : ℕ) (xs ys : Bytes) → bytes_value acc (xs ++ ys) ≡ bytes_value (bytes_value acc xs) ys
unfolding bytes_value
bytes_value-append acc [] ys = refl
bytes_value-append acc (c ∷ cs) ys = bytes_value-append (acc * 256 + c) cs ys

pub bytes_value-big_endian : (k n : ℕ) → n < 256 ^ k → bytes_value 0 (big_endian k n) ≡ n
unfolding big_endian bytes_value
bytes_value-big_endian zero n h = omega arith
bytes_value-big_endian (suc k) n h =
    bytes_value-append 0 (big_endian k (n / 256)) ((n % 256) ∷ [])
    ∙ rw (bytes_value-big_endian k (n / 256) (omega (arith, pow-suc 256 k))) (omega arith)

pub length-big_endian : (k n : ℕ) → length (big_endian k n) ≡ k
unfolding big_endian
length-big_endian zero n = refl
length-big_endian (suc k) n =
    length-append (big_endian k (n / 256)) ((n % 256) ∷ [])
    ∙ omega (arith, length-big_endian k (n / 256))

unfoldable pub seq_key : ℕ → Bytes
seq_key seq = big_endian 8 seq

unfoldable pub int64_to_bytes : ℤ → Bytes
int64_to_bytes v = big_endian 8 (to_word v)

zeros : ℕ → Bytes
zeros zero = []
zeros (suc n) = 0 ∷ zeros n

-- The second case is marked "legacy / unexpected"; Go panics there on more than 8 bytes.
unfoldable pub bytes_to_int64 : Bytes → ℤ
unfolding zeros
bytes_to_int64 b =
    if length b == 8
    then of_word (bytes_value 0 b)
    else of_word (bytes_value 0 (zeros (8 - length b) ++ b))

-- A stored number reads back as its 64 bits.
pub bytes_to_int64-int64_to_bytes : (v : ℤ) → bytes_to_int64 (int64_to_bytes v) ≡ wrap64 v
unfolding bytes_to_int64 int64_to_bytes wrap64
bytes_to_int64-int64_to_bytes v = rw (
  length-big_endian 8 (to_word v),
  bytes_value-big_endian 8 (to_word v) (omega (arith, to_word-lt v)),
)

-- A number of 64 bits that is stored reads back.
pub int64_round_trip : (v : ℤ) → IsInt64 v → bytes_to_int64 (int64_to_bytes v) ≡ v
int64_round_trip v h = bytes_to_int64-int64_to_bytes v ∙ wrap64-eq v h
