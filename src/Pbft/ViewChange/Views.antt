-- ===== src/Pbft/ViewChange/Views.antt =====
-- The views of a replica only grow, internal/pbft/viewchange.go.
use byz_bank.Prelude.Int.{◌≤ℤ◌, int_key}
use byz_bank.Prelude.Keys.{nat_key}
use byz_bank.Store.Bbolt.{Bolt}
use byz_bank.Store.{Store}
use byz_bank.Pbft.Crypto.{Crypto}
use byz_bank.Pbft.State.{Engine}

module _ (db : Bolt) (c : Crypto) where
  -- What a call of `triggerViewChange` does to the view.
  abbrev Grows : (Engine db → Engine db) → Type 0
  Grows t = (e : Engine db) → e.view ≤ℤ (t e).view
