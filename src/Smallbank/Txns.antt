-- ===== src/Smallbank/Txns.antt =====
-- The generator of operations, internal/smallbank/txns.go. An error of a generator method is `none`:
-- it leaves the generator as it was.
use byz_bank.Prelude.{
  Bool, true, false, not, ◌||◌, List, [], ◌∷◌, ◌++◌, Option, none, some, if◌then◌else◌,
}
use byz_bank.Prelude.Int.{ℤ, pos, ltb_ℤ, ◌+64◌, ◌-64◌, quot, int_key}
use byz_bank.Prelude.Keys.{◌==◌}
use byz_bank.Prelude.Text.{Bytes}
use byz_bank.Config.{same_cluster}
use byz_bank.Pbft.Messages.{Request, unset}
use byz_bank.Smallbank.{Schema, validate, cust_cluster, savings_item, checking_item, treasury_item}

pub data Kind : Type 0 where
  balance deposit_checking transact_savings amalgamate write_check send_payment : Kind

-- `Op`, the field `Cust2` of which is 0 where the operation has one customer.
pub record BankOp : Type 0 where
  pub kind : Kind
  pub cust : ℤ
  pub cust2 : ℤ
  pub amt : ℤ
  pub read_only : Bool
  pub penalty : Bool
  pub requests : List Request
  pub cross_shard : Bool

pub record Generator : Type 0 where
  pub schema : Schema
  pub client_id : Bytes
  pub seq : ℤ

unfoldable pub new_generator : Schema → Bytes → Generator
new_generator schema client_id = record { schema = schema; client_id = client_id; seq = pos 0 }

-- The request of `nextReq`, and the generator after it.
unfoldable pub next_req : ℤ → ℤ → ℤ → Generator → Request × Generator
next_req x y amt g =
    let seq = g.seq +64 pos 1 in
    (
      record { client_id = g.client_id; ts = seq; x = x; y = y; amt = amt; op = unset },
      record g { seq = seq },
    )

abbrev pub plain_op : Kind → ℤ → ℤ → ℤ → List Request → BankOp
plain_op kind cust cust2 amt requests = record {
  kind = kind;
  cust = cust;
  cust2 = cust2;
  amt = amt;
  read_only = false;
  penalty = false;
  requests = requests;
  cross_shard = false;
}

unfoldable pub deposit_checking_op : ℤ → ℤ → Generator → Option (BankOp × Generator)
unfolding next_req
deposit_checking_op cust amt g =
    let s = g.schema in
    if not (validate s cust)
    then none
    else let (r, g') =
        next_req (treasury_item s (cust_cluster s cust)) (checking_item s cust) amt g in
      some (plain_op deposit_checking cust (pos 0) amt (r ∷ []), g')

unfoldable pub transact_savings_op : ℤ → ℤ → Generator → Option (BankOp × Generator)
unfolding next_req
transact_savings_op cust amt g =
    let s = g.schema in
    let sav = savings_item s cust in
    let treasury = treasury_item s (cust_cluster s cust) in
    if not (validate s cust)
    then none
    else let (r, g') =
        if ltb_ℤ amt (pos 0)
        then next_req sav treasury (pos 0 -64 amt) g
        else next_req treasury sav amt g in
      some (plain_op transact_savings cust (pos 0) amt (r ∷ []), g')

unfoldable pub send_payment_op : ℤ → ℤ → ℤ → Generator → Option (BankOp × Generator)
unfolding next_req
send_payment_op cust1 cust2 amt g =
    let s = g.schema in
    let x = checking_item s cust1 in
    let y = checking_item s cust2 in
    if not (validate s cust1)
    then none
    else if not (validate s cust2)
    then none
    else let (r, g') = next_req x y amt g in
      some (
        record (plain_op send_payment cust1 cust2 amt (r ∷ [])) {
          cross_shard = not (same_cluster s.topo x y);
        },
        g',
      )

-- Both branches of `WriteCheck` make the same request; the second marks a penalty.
unfoldable pub write_check_op : ℤ → ℤ → Bool → Generator → Option (BankOp × Generator)
unfolding next_req
write_check_op cust amt sufficient g =
    let s = g.schema in
    if not (validate s cust)
    then none
    else let (r, g') =
        next_req (checking_item s cust) (treasury_item s (cust_cluster s cust)) amt g in
      if sufficient
      then some (plain_op write_check cust (pos 0) amt (r ∷ []), g')
      else some (record (plain_op write_check cust (pos 0) amt (r ∷ [])) { penalty = true }, g')

-- One of the two moves of `Amalgamate`: the requests and the mark so far, and the generator.
unfoldable pub add_move :
    ℤ → ℤ → ℤ → List Request × Bool × Generator → List Request × Bool × Generator
unfolding next_req
add_move x y amt (rs, cross, g) =
    if ltb_ℤ (pos 0) amt
    then (let (r, g') = next_req x y amt g in
        (rs ++ (r ∷ []), cross || not (same_cluster g.schema.topo x y), g'))
    else (rs, cross, g)

abbrev pub moved : ℤ → ℤ → List Request × Bool × Generator → Option (BankOp × Generator)
moved cust1 cust2 ([], cross, g) = none
moved cust1 cust2 (r ∷ rs, cross, g) =
    some (record (plain_op amalgamate cust1 cust2 (pos 0) (r ∷ rs)) { cross_shard = cross }, g)

unfoldable pub amalgamate_op : ℤ → ℤ → ℤ → ℤ → Generator → Option (BankOp × Generator)
unfolding add_move
amalgamate_op cust1 cust2 savings_amt check_amt g =
    let s = g.schema in
    if not (validate s cust1)
    then none
    else if not (validate s cust2)
    then none
    else moved cust1 cust2 (
        add_move (checking_item s cust1) (checking_item s cust2) check_amt
          (add_move (savings_item s cust1) (checking_item s cust2) savings_amt ([], false, g)))

unfoldable pub balance_op : ℤ → Generator → Option (BankOp × Generator)
balance_op cust g =
    if not (validate g.schema cust)
    then none
    else some (record (plain_op balance cust (pos 0) (pos 0) []) { read_only = true }, g)

-- `c2 := picker.Pick(); for c2 == c1 { c2 = picker.Pick() }` over the picks that come.
unfoldable pub pick_other : ℤ → List ℤ → Option ℤ
pick_other c1 [] = none
pick_other c1 (c2 ∷ picks) = let rest = pick_other c1 picks in if c2 == c1 then rest else some c2

abbrev pub with_other : Option ℤ → (ℤ → Option (BankOp × Generator)) → Option (BankOp × Generator)
with_other none k = none
with_other (some c2) k = k c2

-- `RandomOp`: the customers that the picker gives are `c1` and then `picks`, and `heads` is whether
-- `picker.Intn(2)` is 0. The loop goes on for as long as the picker gives `c1` again; with no pick
-- left the result is `none`.
unfoldable pub random_op : Kind → ℤ → List ℤ → Bool → ℤ → Generator → Option (BankOp × Generator)
random_op balance c1 picks heads amt g = balance_op c1 g
random_op deposit_checking c1 picks heads amt g = deposit_checking_op c1 amt g
random_op transact_savings c1 picks heads amt g =
    if heads
    then transact_savings_op c1 amt g
    else transact_savings_op c1 (quot (pos 0 -64 amt) 2) g
random_op send_payment c1 picks heads amt g =
    with_other (pick_other c1 picks) λ c2. send_payment_op c1 c2 amt g
random_op write_check c1 picks heads amt g = write_check_op c1 amt true g
random_op amalgamate c1 picks heads amt g =
    with_other (pick_other c1 picks) λ c2. amalgamate_op c1 c2 amt (quot amt 2) g

abbrev pub uniform_kinds : List Kind
uniform_kinds =
    balance ∷ deposit_checking ∷ transact_savings ∷ amalgamate ∷ write_check ∷ send_payment ∷ []
