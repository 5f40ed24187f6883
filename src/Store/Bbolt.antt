-- ===== src/Store/Bbolt.antt =====
-- go.etcd.io/bbolt, which the store stands on and which is not part of the repository: a bucket of
-- keys in byte order. The fields are the calls that internal/store makes, the laws what bbolt
-- documents of them.
use byz_bank.Prelude.{
  ◌≡◌, refl, arith, Bool, true, false, ◌&&◌, ◌||◌, [], ◌∷◌, Option, none, some, ltb, leb, length,
  if◌then◌else◌,
}
use byz_bank.Prelude.Int.{ℤ}
use byz_bank.Prelude.Keys.{◌==◌, nat_key, GoMap, beq_refl}
use byz_bank.Prelude.Keys
use byz_bank.Prelude.Text.{Bytes, bytes_key, itoa, parse_int, parse_int-itoa}

-- The order of `bytes.Compare`.
unfoldable pub bytes_lt : Bytes → Bytes → Bool
bytes_lt [] [] = false
bytes_lt [] (b ∷ bs) = true
bytes_lt (a ∷ r) [] = false
bytes_lt (a ∷ r) (b ∷ bs) = ltb a b || ((a == b) && bytes_lt r bs)

-- `k` comes before every key of the list, and the keys rise.
abbrev pub Before : {V : Type 0} → Bytes → GoMap Bytes V → Type 0
Before k [] = Unit {0}
Before k ((j, v) ∷ m) = bytes_lt k j ≡ true

abbrev pub IsAscending : {V : Type 0} → GoMap Bytes V → Type 0
IsAscending [] = Unit {0}
IsAscending ((k, v) ∷ m) = Before k m × IsAscending m

-- The keys that `Put` takes; it returns an error for a blank key and for one above `MaxKeySize`.
unfoldable pub is_key : Bytes → Bool
is_key k = ltb 0 (length k) && leb (length k) 32768

-- The text of a number, which `Put` takes as well: a Go int has 20 characters at most, where ℤ has no bound.
unfoldable pub is_number : Bytes → Bool
is_number k = elim (parse_int k) [ none ↦ false | some z ↦ itoa z == k ]

abbrev pub IsKey : Bytes → Type 0
IsKey k = (is_key k || is_number k) ≡ true

pub itoa-IsKey : (z : ℤ) → IsKey (itoa z)
unfolding is_number
itoa-IsKey z = rw (is_number, parse_int-itoa z, beq_refl (itoa z)) (ground arith)

pub is_key-IsKey : (k : Bytes) → is_key k ≡ true → IsKey k
is_key-IsKey k h = rw h refl

pub record Bolt : Type 1 where
  pub Bucket : Type 0 → Type 0
  -- `tx.CreateBucket`
  pub fresh : {V : Type 0} → Bucket V
  pub get : {V : Type 0} → Bytes → Bucket V → Option V
  pub put : {V : Type 0} → Bytes → V → Bucket V → Bucket V
  pub delete : {V : Type 0} → Bytes → Bucket V → Bucket V
  -- `b.ForEach`, as the list of the pairs in the order of the calls
  pub for_each : {V : Type 0} → Bucket V → GoMap Bytes V
  pub get-fresh : {V : Type 0} (k : Bytes) → get {V = V} k fresh ≡ none
  pub get-put :
      {V : Type 0} (k j : Bytes) (v : V) (b : Bucket V)
      → IsKey k
      → get j (put k v b) ≡ (if k == j then some v else get j b)
  -- A bucket holds keys that `Put` took.
  pub get-IsKey : {V : Type 0} (k : Bytes) (v : V) (b : Bucket V) → get k b ≡ some v → IsKey k
  pub get-delete :
      {V : Type 0} (k j : Bytes) (b : Bucket V)
      → get j (delete k b) ≡ (if k == j then none else get j b)
  pub get-for_each : {V : Type 0} (k : Bytes) (b : Bucket V) → Keys.get k (for_each b) ≡ get k b
  pub for_each-IsAscending : {V : Type 0} (b : Bucket V) → IsAscending (for_each b)
