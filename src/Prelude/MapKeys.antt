-- ===== src/Prelude/MapKeys.antt =====
-- The keys of Go maps with text keys.
use byz_bank.Prelude.{
  All, suc, ◌≤◌, ◌≡◌, refl, sym, inl, inr, true, false, [], ◌∷◌, none, some, arith, Bool-cases,
  Option-cases, length,
}
use byz_bank.Prelude.Keys.{beq_refl, ◌==◌, GoMap, get, has, put, delete, get-put, nat_key}
use byz_bank.Prelude.Text.{Bytes, bytes_key}

beq_flip : (j k : Bytes) → (j == k) ≡ false → (k == j) ≡ false
beq_flip j k ne = elim (Bool-cases (k == j)) [
  | inl e ↦ cc (ne, (bytes_key.beq_iff j k).1 (sym ((bytes_key.beq_iff k j).0 e)))
  | inr e ↦ e
]

module _ {V : Type 0} where
  abbrev pub DistinctKeys : GoMap Bytes V → Type 0
  DistinctKeys [] = Unit {0}
  DistinctKeys ((k, v) ∷ m) = (has k m ≡ false) × DistinctKeys m

  -- Every key of the first map is one of the second.
  abbrev pub Within : GoMap Bytes V → GoMap Bytes V → Type 0
  Within [] m' = Unit {0}
  Within ((k, v) ∷ m) m' = (has k m' ≡ true) × Within m m'

  length-delete :
      (k : Bytes) (m : GoMap Bytes V) → has k m ≡ true → length m ≡ suc (length (delete k m))
  unfolding has delete
  length-delete k [] h = cc
  length-delete k ((j, v) ∷ m) h = ground (arith, length-delete k m)

  has-delete :
      (j k : Bytes) (m : GoMap Bytes V)
      → (k == j) ≡ false
      → has j m ≡ true
      → has j (delete k m) ≡ true
  unfolding has delete
  has-delete j k [] ne h = cc
  has-delete j k ((i, v) ∷ m) ne h = ground (
    arith,
    has-delete j k m ne,
    bytes_key.beq_iff i k,
    bytes_key.beq_iff i j,
    bytes_key.beq_iff k j,
  )

  Within-delete :
      (k : Bytes) (m m' : GoMap Bytes V) → has k m ≡ false → Within m m' → Within m (delete k m')
  unfolding has
  Within-delete k [] m' h w = tt
  Within-delete k ((j, v) ∷ m) m' h (a, w) = elim (Bool-cases (j == k)) [
    | inl same ↦ cc (rw same at h)
    | inr other ↦ (has-delete j k m' (beq_flip j k other) a, Within-delete k m m' (rw other at h) w)
  ]

  -- The pigeonhole principle for keys.
  pub length-Within : (m m' : GoMap Bytes V) → DistinctKeys m → Within m m' → length m ≤ length m'
  length-Within [] m' d w = omega arith
  length-Within ((k, v) ∷ m) m' (h, d) (a, w) =
      omega
        (arith, length-delete k m' a, length-Within m (delete k m') d (Within-delete k m m' h w))

  pub get_of_has : (k : Bytes) (m : GoMap Bytes V) → has k m ≡ true → (v : V) × (get k m ≡ some v)
  unfolding has get
  get_of_has k [] h = cc
  get_of_has k ((j, v) ∷ m) h = elim (Bool-cases (j == k)) [
    | inl same ↦ (v, rw same refl)
    | inr other ↦ let (w, found) = get_of_has k m (rw other at h) in (w, rw other found)
  ]

  pub has_of_get : (k : Bytes) (m : GoMap Bytes V) (v : V) → get k m ≡ some v → has k m ≡ true
  unfolding has get
  has_of_get k [] v h = cc
  has_of_get k ((j, w) ∷ m) v h = ground (arith, has_of_get k m v)

  pub has_of_none : (k : Bytes) (m : GoMap Bytes V) → get k m ≡ none → has k m ≡ false
  has_of_none k m h = elim (Bool-cases (has k m)) [
    | inl e ↦ let (v, found) = get_of_has k m e in cc (h, found)
    | inr e ↦ e
  ]

  pub none_of_has : (k : Bytes) (m : GoMap Bytes V) → has k m ≡ false → get k m ≡ none
  none_of_has k m h = elim (Option-cases (get k m)) [
    | inl e ↦ e
    | inr (v, e) ↦ cc (h, has_of_get k m v e)
  ]

  has-put_ne :
      (j k : Bytes) (v : V) (m : GoMap Bytes V)
      → (k == j) ≡ false
      → has j m ≡ false
      → has j (put k v m) ≡ false
  has-put_ne j k v m ne h = has_of_none j (put k v m) (rw (get-put k j v m, ne) (none_of_has j m h))

  pub put-DistinctKeys :
      (k : Bytes) (v : V) (m : GoMap Bytes V) → DistinctKeys m → DistinctKeys (put k v m)
  unfolding put has
  put-DistinctKeys k v [] d = (refl, tt)
  put-DistinctKeys k v ((j, w) ∷ m) (h, d) = elim (Bool-cases (j == k)) [
    | inl same ↦ let e : j ≡ k = (bytes_key.beq_iff j k).0 same in rw same (rw e at h, d)
    | inr other ↦ rw other (has-put_ne j k v m (beq_flip j k other) h, put-DistinctKeys k v m d)
  ]

  pub found_behind :
      (j k : Bytes) (w u : V) (m : GoMap Bytes V)
      → has j m ≡ false
      → get k m ≡ some u
      → get k ((j, w) ∷ m) ≡ some u
  unfolding get
  found_behind j k w u m n found = elim (Bool-cases (j == k)) [
    | inl same ↦
        let e : j ≡ k = (bytes_key.beq_iff j k).0 same in
        cc (n, rw (← e) at (has_of_get k m u found))
    | inr other ↦ rw other found
  ]

  -- What holds of every entry that can be looked up holds of every entry.
  pub All-get {ℓ} :
      (P : Bytes → V → Type ℓ) (m : GoMap Bytes V)
      → DistinctKeys m
      → ((k : Bytes) (v : V) → get k m ≡ some v → P k v)
      → All (λ e. P e.0 e.1) m
  unfolding get
  All-get P [] d h = tt
  All-get P ((j, w) ∷ m) (n, d) h = (
    h j w (rw (beq_refl j) refl),
    All-get P m d (λ k u found. h k u (found_behind j k w u m n found)),
  )
