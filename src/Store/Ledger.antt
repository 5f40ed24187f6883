-- ===== src/Store/Ledger.antt =====
-- Sums of balances: what the operations of internal/store/store.go do to the money of a set of items.
use byz_bank.Prelude.{
  ℕ, ◌+◌, ◌≡◌, refl, ap, ◌∙◌, ◌≢◌, inl, inr, List, [], ◌∷◌, if◌then◌else◌, arith, Bool-cases,
}
use byz_bank.Prelude.Int.{
  ℤ, pos, pos_part, neg_part, ◌+ℤ◌, ◌-ℤ◌, ◌≤ℤ◌, ltb_ℤ, ◌+64◌, ◌-64◌, +64-eq, -64-eq, IsInt64,
  int_key, int_laws, ==_ℤ_iff,
}
use byz_bank.Prelude.Keys.{◌==◌, beq_ne}
use byz_bank.Store.Bbolt.{Bolt}
use byz_bank.Store.Balances.{get_balance-apply_transfer}
use byz_bank.Store.{Store, settle, get_balance, apply_transfer}

-- The number of times that an item is listed.
abbrev pub count : ℤ → List ℤ → ℕ
count k [] = 0
count k (i ∷ is) = (if k == i then 1 else 0) + count k is

abbrev pub sum_over : (ℤ → ℤ) → List ℤ → ℤ
sum_over f [] = pos 0
sum_over f (i ∷ is) = f i +ℤ sum_over f is

abbrev pub update : (ℤ → ℤ) → ℤ → ℤ → ℤ → ℤ
update f k v z = if k == z then v else f z

pub sum_over-ext :
    (f g : ℤ → ℤ) (items : List ℤ) → ((z : ℤ) → f z ≡ g z) → sum_over f items ≡ sum_over g items
sum_over-ext f g [] h = refl
sum_over-ext f g (i ∷ is) h = rw (h i, sum_over-ext f g is h)

sum_over-update_absent :
    (f : ℤ → ℤ) (k v : ℤ) (items : List ℤ)
    → count k items ≡ 0
    → sum_over (update f k v) items ≡ sum_over f items
sum_over-update_absent f k v [] h = refl
sum_over-update_absent f k v (i ∷ is) h = ground (arith, sum_over-update_absent f k v is)

swap_ends : (a b c : ℤ) → a +ℤ b +ℤ c ≡ c +ℤ b +ℤ a
swap_ends a b c = omega int_laws

step_over : (a k v p q : ℤ) → p +ℤ k ≡ q +ℤ v → a +ℤ p +ℤ k ≡ a +ℤ q +ℤ v
step_over a k v p q h = omega (int_laws, ap pos_part h, ap neg_part h)

pub sum_over-update :
    (f : ℤ → ℤ) (k v : ℤ) (items : List ℤ)
    → count k items ≡ 1
    → sum_over (update f k v) items +ℤ f k ≡ sum_over f items +ℤ v
sum_over-update f k v [] h = absurd (omega arith)
sum_over-update f k v (i ∷ is) h = elim (Bool-cases (k == i)) [
  | inl here ↦
      rw (here, sum_over-update_absent f k v is (ground arith), (==_ℤ_iff k i).0 here)
        (swap_ends v (sum_over f is) (f i))
  | inr further ↦
      rw further
        (step_over (f i) (f k) v _ (sum_over f is) (sum_over-update f k v is (ground arith)))
]

settled : (a b amt p q r : ℤ) → q +ℤ a ≡ p +ℤ (a -ℤ amt) → r +ℤ b ≡ q +ℤ (b +ℤ amt) → r ≡ p
settled a b amt p q r h k =
    omega (int_laws, ap pos_part h, ap neg_part h, ap pos_part k, ap neg_part k)

grown : (a amt p q : ℤ) → q +ℤ a ≡ p +ℤ (a +ℤ amt) → q ≡ p +ℤ amt
grown a amt p q h = omega (int_laws, ap pos_part h, ap neg_part h)

moved :
    (f : ℤ → ℤ) (x y amt : ℤ) (items : List ℤ)
    → x ≢ y
    → count x items ≡ 1
    → count y items ≡ 1
    → IsInt64 (f x -ℤ amt)
    → IsInt64 (f y +ℤ amt)
    → sum_over (update (update f x (f x -64 amt)) y (f y +64 amt)) items ≡ sum_over f items
moved f x y amt items ne hx hy rx ry =
    let paid = sum_over-update f x (f x -64 amt) items hx in
    let got = sum_over-update (update f x (f x -64 amt)) y (f y +64 amt) items hy in
    let got' = rw (beq_ne x y ne) at got in
    settled (f x) (f y) amt _ _ _ (paid ∙ rw (-64-eq (f x) amt rx))
      (got' ∙ rw (+64-eq (f y) amt ry))

added :
    (f : ℤ → ℤ) (x amt : ℤ) (items : List ℤ)
    → count x items ≡ 1
    → IsInt64 (f x +ℤ amt)
    → sum_over (update f x (f x +64 amt)) items ≡ sum_over f items +ℤ amt
added f x amt items hx range =
    let got = sum_over-update f x (f x +64 amt) items hx in
    grown (f x) amt _ _ (got ∙ rw (+64-eq (f x) amt range))

minted :
    (f : ℤ → ℤ) (x amt z : ℤ)
    → amt ≤ℤ f x
    → (if ltb_ℤ (f x) amt
        then f z
        else if x == z
        then f x +64 amt
        else if x == z
        then f x -64 amt
        else f z)
      ≡ update f x (f x +64 amt) z
minted f x amt z covered = ground arith

module _ (db : Bolt) where
  -- The money that a store holds in the listed items.
  abbrev pub total : Store db → List ℤ → ℤ
  total s items = sum_over (get_balance db s) items

  -- A transfer between two different items conserves the money of every set of items that holds
  -- both, whether it succeeds or fails, where no balance leaves the range of int64.
  pub total-apply_transfer :
      (x y amt : ℤ) (s : Store db) (items : List ℤ)
      → x ≢ y
      → count x items ≡ 1
      → count y items ≡ 1
      → IsInt64 (get_balance db s x -ℤ amt)
      → IsInt64 (get_balance db s y +ℤ amt)
      → total (settle s (apply_transfer db x y amt s)) items ≡ total s items
  total-apply_transfer x y amt s items ne hx hy rx ry =
      let f = get_balance db s in
      elim (Bool-cases (ltb_ℤ (f x) amt)) [
        | inl short ↦
            sum_over-ext _ f items (λ z. get_balance-apply_transfer db x y amt z s ∙ rw short)
        | inr covered ↦
            sum_over-ext _ (update (update f x (f x -64 amt)) y (f y +64 amt)) items
              (λ z. get_balance-apply_transfer db x y amt z s ∙ rw covered)
            ∙ moved f x y amt items ne hx hy rx ry
      ]

  -- A transfer from an item to itself that is covered adds the amount to it out of nothing.
  pub total-apply_transfer_self :
      (x amt : ℤ) (s : Store db) (items : List ℤ)
      → count x items ≡ 1
      → amt ≤ℤ get_balance db s x
      → IsInt64 (get_balance db s x +ℤ amt)
      → total (settle s (apply_transfer db x x amt s)) items ≡ total s items +ℤ amt
  total-apply_transfer_self x amt s items hx covered range =
      let f = get_balance db s in
      sum_over-ext _ (update f x (f x +64 amt)) items
        (λ z. get_balance-apply_transfer db x x amt z s ∙ minted f x amt z covered)
      ∙ added f x amt items hx range
