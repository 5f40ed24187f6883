-- ===== src/Testcase.antt =====
-- internal/testcase: the test files, their sets, and the comparison with an oracle.
pub mod Parse
pub mod Sets
pub mod Oracle
pub mod Multiset
pub mod Print
pub mod Rows
mod Tests
use byz_bank.Prelude.{ℕ, List}
use byz_bank.Prelude.Int.{ℤ}
use byz_bank.Prelude.Text.{Bytes}

pub record Transaction : Type 0 where
  pub x : ℤ
  pub y : ℤ
  pub amt : ℤ

-- `Set`; the server ids are those that `S(\d+)` gives, none of them negative.
pub record TestSet : Type 0 where
  pub number : ℤ
  pub txns : List Transaction
  pub live : List ℕ
  pub contact : List ℕ
  pub byzantine : List ℕ
