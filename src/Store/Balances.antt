-- ===== src/Store/Balances.antt =====
-- The balances of internal/store/store.go: what a transfer, a debit and a credit do to every item.
use byz_bank.Prelude.{◌≡◌, refl, true, false, if◌then◌else◌, arith}
use byz_bank.Prelude.Int.{ℤ, ltb_ℤ, ◌+64◌, ◌-64◌, wrap64, int_key, wrap64-+64, wrap64--64, ==_ℤ_iff}
use byz_bank.Prelude.Keys.{◌==◌}
use byz_bank.Prelude.Text.{bytes_key, data_eq, data_eq_iff}
use byz_bank.Store.Bbolt.{Bolt, IsKey, itoa-IsKey}
use byz_bank.Store.Codec.{
  item_key, item_key-injective, int64_to_bytes, bytes_to_int64-int64_to_bytes,
}
use byz_bank.Store.{
  Store, ok, err, insufficient, settle, balance_in_tx, get_balance, set_balance_tx, apply_transfer,
  apply_debit_only, apply_credit_only,
}

pub item_key-eq : (x y : ℤ) → data_eq (item_key x) (item_key y) ≡ (x == y)
item_key-eq x y =
    ground (arith, data_eq_iff (item_key x) (item_key y), ==_ℤ_iff x y, item_key-injective x y)

pub item_key-IsKey : (z : ℤ) → IsKey (item_key z)
unfolding item_key
item_key-IsKey z = itoa-IsKey z

module _ (db : Bolt) where
  -- A written balance is read back as its 64 bits, and no other item changes.
  pub get_balance-set :
      (s : Store db) (x y b : ℤ)
      → get_balance db (set_balance_tx db s x b) y
        ≡ (if x == y then wrap64 b else get_balance db s y)
  unfolding get_balance set_balance_tx
  get_balance-set s x y b =
      rw
        (
          db.get-put (item_key x) (item_key y) (int64_to_bytes b) s.balances (item_key-IsKey x),
          item_key-eq x y,
        )
        (ground (arith, bytes_to_int64-int64_to_bytes b))

  pub in_tx : (s : Store db) (x : ℤ) → balance_in_tx db s x ≡ get_balance db s x
  unfolding get_balance
  in_tx s x = refl

  -- `ApplyTransfer` leaves every balance alone when the source holds less than the amount. Otherwise
  -- the target gains the amount, the source, if it is another item, loses it, both in 64 bits, and no
  -- other item changes.
  pub get_balance-apply_transfer :
      (x y amt z : ℤ) (s : Store db)
      → get_balance db (settle s (apply_transfer db x y amt s)) z ≡ (
          if ltb_ℤ (get_balance db s x) amt
          then get_balance db s z
          else if y == z
          then get_balance db s y +64 amt
          else if x == z
          then get_balance db s x -64 amt
          else get_balance db s z)
  unfolding apply_transfer
  get_balance-apply_transfer x y amt z s =
      let paid = set_balance_tx db s x (balance_in_tx db s x -64 amt) in
      ground (
        arith,
        in_tx s x,
        in_tx s y,
        get_balance-set paid y z (balance_in_tx db s y +64 amt),
        get_balance-set s x z (balance_in_tx db s x -64 amt),
        wrap64-+64 (balance_in_tx db s y) amt,
        wrap64--64 (balance_in_tx db s x) amt,
      )

  pub get_balance-apply_debit_only :
      (x amt z : ℤ) (s : Store db)
      → get_balance db (settle s (apply_debit_only db x amt s)) z ≡ (
          if ltb_ℤ (get_balance db s x) amt
          then get_balance db s z
          else if x == z
          then get_balance db s x -64 amt
          else get_balance db s z)
  unfolding apply_debit_only
  get_balance-apply_debit_only x amt z s = ground (
    arith,
    in_tx s x,
    get_balance-set s x z (balance_in_tx db s x -64 amt),
    wrap64--64 (balance_in_tx db s x) amt,
  )

  pub get_balance-apply_credit_only :
      (y amt z : ℤ) (s : Store db)
      → get_balance db (settle s (apply_credit_only db y amt s)) z
        ≡ (if y == z then get_balance db s y +64 amt else get_balance db s z)
  unfolding apply_credit_only
  get_balance-apply_credit_only y amt z s = ground (
    arith,
    in_tx s y,
    get_balance-set s y z (balance_in_tx db s y +64 amt),
    wrap64-+64 (balance_in_tx db s y) amt,
  )

  pub apply_transfer_short :
      (x y amt : ℤ) (s : Store db)
      → ltb_ℤ (get_balance db s x) amt ≡ true
      → apply_transfer db x y amt s ≡ err (insufficient x (get_balance db s x) amt)
  unfolding apply_transfer
  apply_transfer_short x y amt s h = ground (arith, in_tx s x)

  pub apply_transfer_covered :
      (x y amt : ℤ) (s : Store db)
      → ltb_ℤ (get_balance db s x) amt ≡ false
      → apply_transfer db x y amt s
        ≡ ok (
            set_balance_tx db
              (set_balance_tx db s x (get_balance db s x -64 amt))
              y
              (get_balance db s y +64 amt))
  unfolding apply_transfer
  apply_transfer_covered x y amt s h = ground (arith, in_tx s x, in_tx s y)

  pub apply_debit_only_short :
      (x amt : ℤ) (s : Store db)
      → ltb_ℤ (get_balance db s x) amt ≡ true
      → apply_debit_only db x amt s ≡ err (insufficient x (get_balance db s x) amt)
  unfolding apply_debit_only
  apply_debit_only_short x amt s h = ground (arith, in_tx s x)

  pub apply_debit_only_covered :
      (x amt : ℤ) (s : Store db)
      → ltb_ℤ (get_balance db s x) amt ≡ false
      → apply_debit_only db x amt s ≡ ok (set_balance_tx db s x (get_balance db s x -64 amt))
  unfolding apply_debit_only
  apply_debit_only_covered x amt s h = ground (arith, in_tx s x)

  pub apply_credit_only_lem :
      (y amt : ℤ) (s : Store db)
      → apply_credit_only db y amt s ≡ ok (set_balance_tx db s y (get_balance db s y +64 amt))
  unfolding apply_credit_only
  apply_credit_only_lem y amt s = rw (in_tx s y)
