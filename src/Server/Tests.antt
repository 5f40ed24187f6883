-- ===== src/Server/Tests.antt =====
-- A reset of server 1 of the first cluster, internal/server/replica.go, after the prepare of a payment.
use byz_bank.Prelude.{◌≡◌, true, false}
use byz_bank.Prelude.Int.{pos, ltb_ℤ, ◌-64◌}
use byz_bank.Store.{get_balance}
use byz_bank.Store.Abstract.{bank_of, set_balance}
use byz_bank.Store.Sample.{sample_bolt, fresh_store, fresh_balance}
use byz_bank.Pbft.Messages.{coord_prepare}
use byz_bank.Pbft.Execute.{execute_op}
use byz_bank.Pbft.Sample.{one_text, payment, engine_of, cert}
use byz_bank.Twopc.Node.{Node, new_node}
use byz_bank.Server.{reset_replica}
use byz_bank.Server.Reset.{cleared, reset_replica-prepared}

abbrev server_1 : Node sample_bolt
server_1 = record (new_node sample_bolt (engine_of 1 1) false (λ id. true)) {
  engine = engine_of 1 1;
}

covered : ltb_ℤ (get_balance sample_bolt server_1.engine.store (pos 1)) (pos 4) ≡ false
covered = rw (fresh_balance (pos 1))

reset_replica-prepared_example :
    bank_of sample_bolt
      (reset_replica sample_bolt one_text (record server_1 {
        engine = execute_op sample_bolt one_text coord_prepare payment (pos 1) cert server_1.engine;
      })).engine.store
    ≡ cleared (
        set_balance
          (pos 1)
          (get_balance sample_bolt fresh_store (pos 1) -64 pos 4)
          (bank_of sample_bolt fresh_store))
reset_replica-prepared_example =
    reset_replica-prepared sample_bolt one_text server_1 payment (pos 1) cert covered
