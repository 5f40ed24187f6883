-- ===== src/Store/Types.antt =====
-- internal/store/types.go.
use byz_bank.Prelude.Int.{ℤ}
use byz_bank.Prelude.Keys.{GoMap}
use byz_bank.Prelude.Text.{Bytes}

pub data TxnKind : Type 0 where
  intra cross : TxnKind

pub data Phase : Type 0 where
  prepare commit : Phase

-- The two outcomes that the program writes; in Go an open string.
pub data Outcome : Type 0 where
  committed aborted : Outcome

pub record DatastoreEntry : Type 0 where
  pub seq : ℤ
  pub kind : TxnKind
  pub phase : Phase
  pub x : ℤ
  pub y : ℤ
  pub amt : ℤ
  pub ballot_or_view_seq : ℤ
  pub outcome : Outcome

-- `WALPreimage`: the balance of each item before a tentative change.
abbrev pub WalPreimage : Type 0
WalPreimage = GoMap ℤ ℤ

-- What the datastore bucket holds: the last sequence number under the key "seq", and the entries.
pub data Cell : Type 0 where
  last_seq : Bytes → Cell
  entry : DatastoreEntry → Cell
