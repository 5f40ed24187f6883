-- ===== src/Smallbank/Routing.antt =====
-- Which operations of internal/smallbank/txns.go cross the clusters.
use byz_bank.Prelude.{
  suc, ◌≡◌, refl, sym, ap₂, ◌∙◌, inl, inr, Bool, true, false, not, ◌||◌, List, [], ◌∷◌, ◌++◌,
  Option, none, some, arith, Bool-cases,
}
use byz_bank.Prelude.Int.{ℤ, pos, ltb_ℤ, ◌-64◌, quot}
use byz_bank.Prelude.Keys.{nat_key, beq_refl}
use byz_bank.Config.{Topology, same_cluster}
use byz_bank.Pbft.Messages.{Request}
use byz_bank.Smallbank.{
  Schema, total_customers, validate, cust_cluster, savings_item, checking_item, treasury_item,
}
use byz_bank.Smallbank.Layout.{IsSized}
use byz_bank.Smallbank.Placement.{customer, customer_placed, validate_iff}
use byz_bank.Smallbank.Txns.{
  Kind, balance, deposit_checking, transact_savings, amalgamate, write_check, send_payment, BankOp,
  Generator, deposit_checking_op, transact_savings_op, send_payment_op, write_check_op, add_move,
  moved, amalgamate_op, balance_op, pick_other, with_other, random_op,
}

-- Whether one of the requests is between two clusters.
unfoldable pub crosses : Topology → List Request → Bool
crosses t [] = false
crosses t (r ∷ rs) = not (same_cluster t r.x r.y) || crosses t rs

abbrev pub IsMarked : Schema → Option (BankOp × Generator) → Type 0
IsMarked s none = Unit {0}
IsMarked s (some (op, g)) = op.cross_shard ≡ crosses s.topo op.requests

module _ (g : Generator) (sized : IsSized g.schema) where
  abbrev s : Schema
  s = g.schema

  within_home :
      (cust : ℤ)
      → validate s cust ≡ true
      → (same_cluster s.topo (treasury_item s (cust_cluster s cust)) (checking_item s cust) ≡ true)
        × (same_cluster s.topo (checking_item s cust) (treasury_item s (cust_cluster s cust))
            ≡ true)
        × (same_cluster s.topo (treasury_item s (cust_cluster s cust)) (savings_item s cust) ≡ true)
        × (same_cluster s.topo (savings_item s cust) (treasury_item s (cust_cluster s cust)) ≡ true)
  unfolding same_cluster
  within_home cust h =
      let (k, e, lt) = customer cust (total_customers s) ((validate_iff s sized cust).0 h) in
      let (a, b, d) = customer_placed s sized k lt in
      let same = beq_refl (cust_cluster s (pos (suc k))) in rw (e, a, b, d) (same, same, same, same)

  deposit_checking_op-IsMarked : (cust amt : ℤ) → IsMarked s (deposit_checking_op cust amt g)
  unfolding deposit_checking_op crosses
  deposit_checking_op-IsMarked cust amt = elim (Bool-cases (validate s cust)) [
    | inr bad ↦ rw bad tt
    | inl good ↦ let (a, _, _, _) = within_home cust good in rw (good, a) refl
  ]

  transact_savings_op-IsMarked : (cust amt : ℤ) → IsMarked s (transact_savings_op cust amt g)
  unfolding transact_savings_op crosses
  transact_savings_op-IsMarked cust amt = elim (Bool-cases (validate s cust)) [
    | inr bad ↦ rw bad tt
    | inl good ↦
        let (_, _, a, b) = within_home cust good in
        elim (Bool-cases (ltb_ℤ amt (pos 0))) [
          | inl out ↦ rw (good, out, b) refl
          | inr into ↦ rw (good, into, a) refl
        ]
  ]

  write_check_op-IsMarked :
      (cust amt : ℤ) (sufficient : Bool) → IsMarked s (write_check_op cust amt sufficient g)
  unfolding write_check_op crosses
  write_check_op-IsMarked cust amt true = elim (Bool-cases (validate s cust)) [
    | inr bad ↦ rw bad tt
    | inl good ↦ let (_, a, _, _) = within_home cust good in rw (good, a) refl
  ]
  write_check_op-IsMarked cust amt false = elim (Bool-cases (validate s cust)) [
    | inr bad ↦ rw bad tt
    | inl good ↦ let (_, a, _, _) = within_home cust good in rw (good, a) refl
  ]

  or_false : (b : Bool) → b ≡ (b || false)
  or_false true = refl
  or_false false = refl

  send_payment_op-IsMarked : (c1 c2 amt : ℤ) → IsMarked s (send_payment_op c1 c2 amt g)
  unfolding send_payment_op crosses
  send_payment_op-IsMarked c1 c2 amt = elim (Bool-cases (validate s c1)) [
    | inr bad ↦ rw bad tt
    | inl good ↦ elim (Bool-cases (validate s c2)) [
      | inr bad ↦ rw (good, bad) tt
      | inl fine ↦ rw (good, fine) (or_false _)
    ]
  ]

  -- The moves so far are marked, and the generator has the schema.
  abbrev AreMarked : List Request × Bool × Generator → Type 0
  AreMarked (rs, cross, g') = (cross ≡ crosses s.topo rs) × (g'.schema ≡ s)

  crosses-append :
      (rs : List Request) (r : Request)
      → crosses s.topo (rs ++ (r ∷ [])) ≡ (crosses s.topo rs || not (same_cluster s.topo r.x r.y))
  unfolding crosses
  crosses-append [] r = sym (or_false _)
  crosses-append (q ∷ rs) r = ground (arith, crosses-append rs r)

  add_move-AreMarked :
      (x y amt : ℤ) (rs : List Request) (cross : Bool) (g' : Generator)
      → AreMarked (rs, cross, g')
      → AreMarked (add_move x y amt (rs, cross, g'))
  unfolding add_move
  add_move-AreMarked x y amt rs cross g' (m, same) = elim (Bool-cases (ltb_ℤ (pos 0) amt)) [
    | inr no_money ↦ rw no_money (m, same)
    | inl some_money ↦ rw some_money (
      ap₂ (λ a (t : Schema). a || not (same_cluster t.topo x y)) m same ∙ sym (crosses-append rs _),
      same,
    )
  ]

  moved-IsMarked :
      (c1 c2 : ℤ) (ms : List Request × Bool × Generator)
      → AreMarked ms
      → IsMarked s (moved c1 c2 ms)
  moved-IsMarked c1 c2 ([], cross, g') h = tt
  moved-IsMarked c1 c2 (r ∷ rs, cross, g') (m, same) = m

  amalgamate_op-IsMarked :
      (c1 c2 savings_amt check_amt : ℤ) → IsMarked s (amalgamate_op c1 c2 savings_amt check_amt g)
  unfolding amalgamate_op crosses
  amalgamate_op-IsMarked c1 c2 savings_amt check_amt = elim (Bool-cases (validate s c1)) [
    | inr bad ↦ rw bad tt
    | inl good ↦ elim (Bool-cases (validate s c2)) [
      | inr bad ↦ rw (good, bad) tt
      | inl fine ↦
          let first =
            add_move-AreMarked (savings_item s c1) (checking_item s c2) savings_amt [] false g
              (refl, refl) in
          rw (good, fine)
            (moved-IsMarked c1 c2 _
              (add_move-AreMarked (checking_item s c1) (checking_item s c2) check_amt _ _ _ first))
    ]
  ]

  balance_op-IsMarked : (cust : ℤ) → IsMarked s (balance_op cust g)
  unfolding balance_op crosses
  balance_op-IsMarked cust = elim (Bool-cases (validate s cust)) [
    | inr bad ↦ rw bad tt
    | inl good ↦ rw good refl
  ]

  with_other-IsMarked :
      (o : Option ℤ) (k : ℤ → Option (BankOp × Generator))
      → ((c2 : ℤ) → IsMarked s (k c2))
      → IsMarked s (with_other o k)
  with_other-IsMarked none k h = tt
  with_other-IsMarked (some c2) k h = h c2

  -- Where the items of a cluster have room for two of every customer and a treasury, there is a customer,
  -- and customers and items are fewer than 2^62: every operation that the generator makes is marked as
  -- cross-shard exactly when one of its requests is between two clusters. Deposits, savings and checks stay in the customer's own cluster.
  pub random_op-IsMarked :
      (kind : Kind) (c1 : ℤ) (picks : List ℤ) (heads : Bool) (amt : ℤ)
      → IsMarked s (random_op kind c1 picks heads amt g)
  unfolding random_op
  random_op-IsMarked balance c1 picks heads amt = balance_op-IsMarked c1
  random_op-IsMarked deposit_checking c1 picks heads amt = deposit_checking_op-IsMarked c1 amt
  random_op-IsMarked transact_savings c1 picks true amt = transact_savings_op-IsMarked c1 amt
  random_op-IsMarked transact_savings c1 picks false amt =
      transact_savings_op-IsMarked c1 (quot (pos 0 -64 amt) 2)
  random_op-IsMarked send_payment c1 picks heads amt =
      with_other-IsMarked (pick_other c1 picks) _ (λ c2. send_payment_op-IsMarked c1 c2 amt)
  random_op-IsMarked write_check c1 picks heads amt = write_check_op-IsMarked c1 amt true
  random_op-IsMarked amalgamate c1 picks heads amt =
      with_other-IsMarked (pick_other c1 picks) _
        (λ c2. amalgamate_op-IsMarked c1 c2 amt (quot amt 2))
