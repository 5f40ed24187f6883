-- ===== src/Store/Unique.antt =====
-- A list in byte order is settled by what its lookups give: so is what bbolt's `ForEach` gives of a bucket.
use byz_bank.Prelude.{
  ◌≡◌, ◌≢◌, refl, ap, ap₂, sym, ◌∙◌, true, ◌⊎◌, inl, inr, Bool-cases, [], ◌∷◌, none, some, arith,
}
use byz_bank.Prelude.Keys.{◌==◌, nat_key, GoMap, get, beq_refl, beq_ne}
use byz_bank.Prelude.Text.{Bytes, bytes_key}
use byz_bank.Store.Bbolt.{bytes_lt, Before, IsAscending}
use byz_bank.Store.Ascending.{Before-trans, bytes_lt_irrefl}

bytes_order : (a b : Bytes) → (a ≡ b) ⊎ ((bytes_lt a b ≡ true) ⊎ (bytes_lt b a ≡ true))
unfolding bytes_lt
bytes_order [] [] = inl refl
bytes_order [] (y ∷ b) = inr (inl refl)
bytes_order (x ∷ a) [] = inr (inr refl)
bytes_order (x ∷ a) (y ∷ b) = elim (bytes_order a b) [
  | inl same ↦ ground (arith, ap (λ t. x ∷ t) same)
  | inr (inl less) ↦ ground arith
  | inr (inr more) ↦ ground arith
]

module _ {V : Type 0} where
  pub get-Before : (k : Bytes) (m : GoMap Bytes V) → Before k m → IsAscending m → get k m ≡ none
  unfolding get
  get-Before k [] b h = refl
  get-Before k ((j, v) ∷ m) b (a, h) = elim (Bool-cases (j == k)) [
    | inl same ↦
        let e : j ≡ k = (bytes_key.beq_iff j k).0 same in absurd (cc (bytes_lt_irrefl k, rw e at b))
    | inr other ↦ rw other (get-Before k m (Before-trans k j m b a) h)
  ]

  get-here : (k : Bytes) (v : V) (m : GoMap Bytes V) → get k ((k, v) ∷ m) ≡ some v
  unfolding get
  get-here k v m = rw (beq_refl k) refl

  get-there : (k j : Bytes) (v : V) (m : GoMap Bytes V) → (j ≢ k) → get k ((j, v) ∷ m) ≡ get k m
  unfolding get
  get-there k j v m h = rw (beq_ne j k h) refl

  -- A key that comes before another list's first is missing there.
  head_missing :
      (k j : Bytes) (v w : V) (m m' : GoMap Bytes V)
      → bytes_lt k j ≡ true
      → IsAscending ((j, w) ∷ m')
      → get k ((k, v) ∷ m) ≡ get k ((j, w) ∷ m')
      → ⊥
  head_missing k j v w m m' lt up same = cc (get-here k v m, get-Before k ((j, w) ∷ m') lt up, same)

  heads_agree :
      (k : Bytes) (v w : V) (m m' : GoMap Bytes V)
      → get k ((k, v) ∷ m) ≡ get k ((k, w) ∷ m')
      → v ≡ w
  heads_agree k v w m m' same =
      let both : some v ≡ some w = sym (get-here k v m) ∙ same ∙ get-here k w m' in cc both

  tails_agree :
      (k : Bytes) (v w : V) (m m' : GoMap Bytes V)
      → IsAscending ((k, v) ∷ m)
      → IsAscending ((k, w) ∷ m')
      → ((i : Bytes) → get i ((k, v) ∷ m) ≡ get i ((k, w) ∷ m'))
      → (i : Bytes) → get i m ≡ get i m'
  tails_agree k v w m m' (a, h) (a', h') same i = elim (Bool-cases (k == i)) [
    | inl here ↦
        let e : k ≡ i = (bytes_key.beq_iff k i).0 here in
        rw (← e) (get-Before k m a h ∙ sym (get-Before k m' a' h'))
    | inr there ↦
        let ne : k ≢ i = λ e. cc ((bytes_key.beq_iff k i).1 e, there) in
        sym (get-there i k v m ne) ∙ same i ∙ get-there i k w m' ne
  ]

  pub ascending_unique :
      (m m' : GoMap Bytes V)
      → IsAscending m
      → IsAscending m'
      → ((k : Bytes) → get k m ≡ get k m')
      → m ≡ m'
  unfolding get
  ascending_unique [] [] h h' same = refl
  ascending_unique [] ((j, w) ∷ m') h h' same = absurd (cc (get-here j w m', same j))
  ascending_unique ((k, v) ∷ m) [] h h' same = absurd (cc (get-here k v m, same k))
  ascending_unique ((k, v) ∷ m) ((j, w) ∷ m') h h' same = elim (bytes_order k j) [
    | inr (inl less) ↦ absurd (head_missing k j v w m m' less h' (same k))
    | inr (inr more) ↦ absurd (head_missing j k w v m' m more h (sym (same j)))
    | inl e ↦
        let up : IsAscending ((k, w) ∷ m') = rw (← e) at h' in
        let agree : (i : Bytes) → get i ((k, v) ∷ m) ≡ get i ((k, w) ∷ m') =
          λ i. rw (← e) at (same i) in
        let value = heads_agree k v w m m' (agree k) in
        let rest = ascending_unique m m' h.1 up.1 (tails_agree k v w m m' h up agree) in
        rw (← e) (ap₂ (λ (x : V) (t : GoMap Bytes V). (k, x) ∷ t) value rest)
  ]
