-- ===== src/Store/Sample.antt =====
-- A bucket as a list of pairs in byte order: a value of the bbolt parameter, for the tests.
use byz_bank.Prelude.{
  ◌≡◌, subst, Bool, ◌||◌, refl, true, false, inl, inr, [], ◌∷◌, none, some, if◌then◌else◌, arith,
  Bool-cases,
}
use byz_bank.Prelude.Keys.{◌==◌, nat_key, GoMap}
use byz_bank.Prelude.Keys
use byz_bank.Prelude.Text.{Bytes, bytes_key, data_eq, data_eq_iff}
use byz_bank.Store.{Store, get_balance, wal_exists, is_locked}
use byz_bank.Prelude.Int.{ℤ, pos}
use byz_bank.Store.Bbolt.{Bolt, IsKey, is_key, is_number, bytes_lt, Before, IsAscending}
use byz_bank.Store.Ascending.{Before-trans}

bytes_lt-total : (a b : Bytes) → bytes_lt a b ≡ false → (a == b) ≡ false → bytes_lt b a ≡ true
unfolding bytes_lt data_eq
bytes_lt-total [] [] h k = cc
bytes_lt-total [] (y ∷ b) h k = cc
bytes_lt-total (x ∷ a) [] h k = refl
bytes_lt-total (x ∷ a) (y ∷ b) h k = ground (arith, bytes_lt-total a b)

module _ {V : Type 0} where
  pub insert : Bytes → V → GoMap Bytes V → GoMap Bytes V
  insert k v [] = (k, v) ∷ []
  insert k v ((j, w) ∷ m) =
      if bytes_lt k j
      then (k, v) ∷ (j, w) ∷ m
      else if k == j
      then (k, v) ∷ m
      else (j, w) ∷ insert k v m

  pub remove : Bytes → GoMap Bytes V → GoMap Bytes V
  remove k [] = []
  remove k ((j, w) ∷ m) = let rest = remove k m in if k == j then rest else (j, w) ∷ rest

  pub get-insert :
      (k j : Bytes) (v : V) (m : GoMap Bytes V)
      → Keys.get j (insert k v m) ≡ (if k == j then some v else Keys.get j m)
  unfolding insert Keys.get
  get-insert k j v [] = refl
  get-insert k j v ((i, w) ∷ m) =
      ground (arith, data_eq_iff k j, data_eq_iff k i, data_eq_iff i j, get-insert k j v m)

  pub get-remove :
      (k j : Bytes) (m : GoMap Bytes V)
      → Keys.get j (remove k m) ≡ (if k == j then none else Keys.get j m)
  unfolding remove Keys.get
  get-remove k j [] = ground arith
  get-remove k j ((i, w) ∷ m) =
      ground (arith, data_eq_iff k j, data_eq_iff k i, data_eq_iff i j, get-remove k j m)

  insert-Before :
      (k j : Bytes) (v : V) (m : GoMap Bytes V)
      → bytes_lt j k ≡ true
      → Before j m
      → Before j (insert k v m)
  unfolding insert
  insert-Before k j v [] h b = h
  insert-Before k j v ((i, w) ∷ m) h b = elim (Bool-cases (bytes_lt k i)) [
    | inl e ↦ rw e h
    | inr e ↦ elim (Bool-cases (k == i)) [ inl d ↦ rw (e, d) h | inr d ↦ rw (e, d) b ]
  ]

  pub insert-IsAscending :
      (k : Bytes) (v : V) (m : GoMap Bytes V) → IsAscending m → IsAscending (insert k v m)
  unfolding insert
  insert-IsAscending k v [] h = (tt, tt)
  insert-IsAscending k v ((i, w) ∷ m) (b, h) = elim (Bool-cases (bytes_lt k i)) [
    | inl e ↦ rw e (e, (b, h))
    | inr e ↦ elim (Bool-cases (k == i)) [
      | inl d ↦ rw (e, d) (rw ((data_eq_iff k i).0 d) b, h)
      | inr d ↦
          rw (e, d) (insert-Before k i v m (bytes_lt-total k i e d) b, insert-IsAscending k v m h)
    ]
  ]

  remove-Before :
      (k j : Bytes) (m : GoMap Bytes V) → IsAscending m → Before j m → Before j (remove k m)
  unfolding remove
  remove-Before k j [] h b = tt
  remove-Before k j ((i, w) ∷ m) (a, h) b = elim (Bool-cases (k == i)) [
    | inl e ↦ rw e (remove-Before k j m h (Before-trans j i m b a))
    | inr e ↦ rw e b
  ]

  pub remove-IsAscending :
      (k : Bytes) (m : GoMap Bytes V) → IsAscending m → IsAscending (remove k m)
  unfolding remove
  remove-IsAscending k [] h = tt
  remove-IsAscending k ((i, w) ∷ m) (b, h) = elim (Bool-cases (k == i)) [
    | inl e ↦ rw e (remove-IsAscending k m h)
    | inr e ↦ rw e (remove-Before k i m h b, remove-IsAscending k m h)
  ]

pub record Sorted (V : Type 0) : Type 0 where
  pub items : GoMap Bytes V
  pub ascending : IsAscending items
  pub keys : (k : Bytes) (v : V) → Keys.get k items ≡ some v → IsKey k

-- `Put`, which refuses what is no key.
abbrev pub takes : Bytes → Bool
takes k = is_key k || is_number k

module _ {V : Type 0} where
  pub put_items : Bool → Bytes → V → GoMap Bytes V → GoMap Bytes V
  put_items true k v m = insert k v m
  put_items false k v m = m

  pub put_items-IsAscending :
      (b : Bool) (k : Bytes) (v : V) (m : GoMap Bytes V)
      → IsAscending m
      → IsAscending (put_items b k v m)
  unfolding put_items
  put_items-IsAscending true k v m h = insert-IsAscending k v m h
  put_items-IsAscending false k v m h = h

  pub put_items-keys :
      (b : Bool) (k : Bytes) (v : V) (m : GoMap Bytes V)
      → takes k ≡ b
      → ((j : Bytes) (w : V) → Keys.get j m ≡ some w → IsKey j)
      → (j : Bytes) (w : V) → Keys.get j (put_items b k v m) ≡ some w
      → IsKey j
  unfolding put_items
  put_items-keys true k v m t h j w found = elim (Bool-cases (k == j)) [
    | inl e ↦ let same : k ≡ j = (data_eq_iff k j).0 e in subst IsKey same t
    | inr e ↦ h j w (rw (get-insert k j v m, e) at found)
  ]
  put_items-keys false k v m t h j w found = h j w found

  pub remove-keys :
      (k : Bytes) (m : GoMap Bytes V)
      → ((j : Bytes) (w : V) → Keys.get j m ≡ some w → IsKey j)
      → (j : Bytes) (w : V) → Keys.get j (remove k m) ≡ some w
      → IsKey j
  remove-keys k m h j w found = elim (Bool-cases (k == j)) [
    | inl e ↦ cc (rw (get-remove k j m, e) at found)
    | inr e ↦ h j w (rw (get-remove k j m, e) at found)
  ]

  pub put_items-get :
      (k j : Bytes) (v : V) (m : GoMap Bytes V)
      → IsKey k
      → Keys.get j (put_items (takes k) k v m) ≡ (if k == j then some v else Keys.get j m)
  unfolding put_items
  put_items-get k j v m h = rw h (get-insert k j v m)

pub fresh-IsKey : {V : Type 0} (k : Bytes) (v : V) → Keys.get k [] ≡ some v → IsKey k
unfolding Keys.get
fresh-IsKey k v h = cc h

abbrev pub sample_bolt : Bolt
unfolding Keys.get
sample_bolt = record {
  Bucket = Sorted;
  fresh = record { items = []; ascending = tt; keys = fresh-IsKey };
  get = λ k b. Keys.get k b.items;
  put = λ k v b. record {
    items = put_items (takes k) k v b.items;
    ascending = put_items-IsAscending (takes k) k v b.items b.ascending;
    keys = put_items-keys (takes k) k v b.items refl b.keys;
  };
  delete = λ k b. record {
    items = remove k b.items;
    ascending = remove-IsAscending k b.items b.ascending;
    keys = remove-keys k b.items b.keys;
  };
  for_each = λ b. b.items;
  get-fresh = λ k. refl;
  get-put = λ k j v b h. put_items-get k j v b.items h;
  get-IsKey = λ k v b h. b.keys k v h;
  get-delete = λ k j b. get-remove k j b.items;
  get-for_each = λ k b. refl;
  for_each-IsAscending = λ b. b.ascending;
}

-- A store in which every account holds 10.
abbrev pub fresh_store : Store sample_bolt
fresh_store = record {
  initial_balance = pos 10;
  total_items = pos 100;
  balances = sample_bolt.fresh;
  datastore = sample_bolt.fresh;
  locks = sample_bolt.fresh;
  wal = sample_bolt.fresh;
  client_ts = sample_bolt.fresh;
}

pub fresh_balance : (z : ℤ) → get_balance sample_bolt fresh_store z ≡ pos 10
unfolding get_balance Keys.get sample_bolt
fresh_balance z = refl

pub fresh_wal : (k : Bytes) → sample_bolt.get k fresh_store.wal ≡ none
unfolding Keys.get sample_bolt
fresh_wal k = refl

pub fresh_wal_exists : (k : Bytes) → wal_exists sample_bolt fresh_store k ≡ false
unfolding Keys.get sample_bolt wal_exists
fresh_wal_exists k = refl

pub fresh_locks : (i : ℤ) → is_locked sample_bolt fresh_store i ≡ false
unfolding Keys.get sample_bolt is_locked
fresh_locks i = refl
