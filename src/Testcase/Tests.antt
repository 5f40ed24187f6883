-- ===== src/Testcase/Tests.antt =====
-- Runs of internal/testcase: a test file with a header and two transactions.
use byz_bank.Prelude.{◌≡◌, ◌≤◌, length, refl, true, ◌↔◌, List, [], ◌∷◌, some}
use byz_bank.Prelude.Int.{pos}
use byz_bank.Prelude.Text.{Bytes, in_int64, atoi, parse_int, digits_value, data_eq}
use byz_bank.Testcase.{TestSet}
use byz_bank.Testcase.Parse.{
  find_transaction, match_transaction, expect, number, comma, read_digits, saturate, skip_blanks,
  parse_transaction, parse_server_list,
}
use byz_bank.Testcase.Sets.{
  read_rows, begin_set, add_transaction, servers_at, trim, trim_left, parse_file, drop_header,
}
use byz_bank.Testcase.Oracle.{multiset_equal}
use byz_bank.Testcase.Multiset.{count, multiset_equal_iff}
use byz_bank.Testcase.Rows.{Split, all_txns, transaction_fields, ReadAs, parse_file-txns}

-- "(1,60,4)"
abbrev pay_text : Bytes
pay_text = 40 ∷ 49 ∷ 44 ∷ 54 ∷ 48 ∷ 44 ∷ 52 ∷ 41 ∷ []

-- The rows "Set,Txn", "1,(1,60,4)" and ",(1,60,4)".
abbrev rows : List (List Bytes)
rows =
    ((83 ∷ 101 ∷ 116 ∷ []) ∷ (84 ∷ []) ∷ [])
    ∷ ((49 ∷ []) ∷ pay_text ∷ [])
    ∷ ([] ∷ pay_text ∷ [])
    ∷ []

abbrev one_set : TestSet
one_set = record {
  number = pos 1;
  txns =
      record { x = pos 1; y = pos 60; amt = pos 4 }
      ∷ record { x = pos 1; y = pos 60; amt = pos 4 }
      ∷ [];
  live = [];
  contact = [];
  byzantine = [];
}

multiset_equal_iff_example :
    (multiset_equal ((1 ∷ []) ∷ (2 ∷ []) ∷ []) ((2 ∷ []) ∷ (1 ∷ []) ∷ []) ≡ true)
    ↔ ((s : Bytes) → count s ((1 ∷ []) ∷ (2 ∷ []) ∷ []) ≡ count s ((2 ∷ []) ∷ (1 ∷ []) ∷ []))
multiset_equal_iff_example =
    multiset_equal_iff ((1 ∷ []) ∷ (2 ∷ []) ∷ []) ((2 ∷ []) ∷ (1 ∷ []) ∷ [])

rows-read : parse_file rows ≡ some (one_set ∷ [])
unfolding parse_file read_rows drop_header begin_set add_transaction parse_transaction
    find_transaction match_transaction expect number comma read_digits saturate servers_at in_int64
    parse_server_list skip_blanks trim trim_left atoi parse_int digits_value data_eq
rows-read = refl

parse_file-txns_example :
    (2 ≤ length rows)
    × (data_rows : List (List Bytes)) × Split rows data_rows
    × ReadAs (transaction_fields data_rows) (all_txns (one_set ∷ []))
parse_file-txns_example = parse_file-txns rows (one_set ∷ []) rows-read
