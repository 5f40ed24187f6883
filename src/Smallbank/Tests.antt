-- ===== src/Smallbank/Tests.antt =====
-- Runs of internal/smallbank: five customers in each of two clusters of 50 items.
use byz_bank.Prelude.{◌≡◌, ◌≤◌, true, ◌↔◌, [], ◌∷◌, arith, Differ}
use byz_bank.Prelude.Int.{pos, ◌≤ℤ◌}
use byz_bank.Config.{items_per_cluster}
use byz_bank.Pbft.Sample.{two_clusters}
use byz_bank.Smallbank.{Schema, total_customers, all_tracked_items, validate}
use byz_bank.Smallbank.Layout.{IsSized}
use byz_bank.Smallbank.Placement.{validate_iff}
use byz_bank.Smallbank.Tracked.{all_tracked_items-Differ}
use byz_bank.Smallbank.Picker.{hot_draw, IsDrawn, new_picker, pick, pick_valid}
use byz_bank.Smallbank.Txns.{Generator, send_payment, random_op}
use byz_bank.Smallbank.Routing.{IsMarked, random_op-IsMarked}

abbrev ten_customers : Schema
ten_customers = record { topo = two_clusters; customers_per_cluster = 5; penalty_amount = pos 1 }

ten_fit : IsSized ten_customers
unfolding items_per_cluster total_customers
ten_fit = record {
  populated = omega arith;
  fits = omega arith;
  few_customers = omega arith;
  few_items = omega arith;
}

abbrev teller : Generator
teller = record { schema = ten_customers; client_id = 65 ∷ []; seq = pos 0 }

validate_iff_example :
    (validate ten_customers (pos 7) ≡ true)
    ↔ ((pos 1 ≤ℤ pos 7) × (pos 7 ≤ℤ pos (total_customers ten_customers)))
validate_iff_example = validate_iff ten_customers ten_fit (pos 7)

all_tracked_items-Differ_example : Differ (all_tracked_items ten_customers)
all_tracked_items-Differ_example = all_tracked_items-Differ ten_customers ten_fit

random_op-IsMarked_example :
    IsMarked ten_customers (random_op send_payment (pos 2) (pos 2 ∷ pos 7 ∷ []) true (pos 3) teller)
random_op-IsMarked_example =
    random_op-IsMarked teller ten_fit send_payment (pos 2) (pos 2 ∷ pos 7 ∷ []) true (pos 3)

few_hot : 3 ≤ total_customers ten_customers
unfolding total_customers
few_hot = omega arith

drawn : IsDrawn (new_picker (total_customers ten_customers) 2 5 3) (hot_draw 1 0)
unfolding new_picker
drawn = (ground arith, ground arith)

pick_valid_example :
    validate ten_customers
      (pos (pick (new_picker (total_customers ten_customers) 2 5 3) (hot_draw 1 0)))
    ≡ true
pick_valid_example = pick_valid ten_customers 3 (hot_draw 1 0) ten_fit (omega arith) few_hot drawn
