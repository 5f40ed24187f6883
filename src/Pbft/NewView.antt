-- ===== src/Pbft/NewView.antt =====
-- The messages of the view change, internal/pbft/viewchange.go: what a replica reports, and the NEW-VIEW
-- message that the next primary makes of the reports.
pub mod Reports
pub mod Slots
pub mod Proposals
mod Tests
use byz_bank.Prelude.{
  ℕ, Bool, true, not, ◌&&◌, List, [], ◌∷◌, ◌++◌, Option, none, some, if◌then◌else◌,
}
use byz_bank.Prelude.Int.{ℤ, pos, ltb_ℤ, leb_ℤ, ◌+64◌, ◌-64◌, int_key}
use byz_bank.Prelude.Keys.{◌==◌, GoMap, get, put, delete, nat_key}
use byz_bank.Prelude.Text.{Bytes, bytes_key}
use byz_bank.Store.Bbolt.{Bolt}
use byz_bank.Store.{Store, get_balance, get_client_ts}
use byz_bank.Pbft.Crypto.{Crypto}
use byz_bank.Pbft.Messages.{
  Request, PrePrepareMsg, PreparedEntry, ViewChangeMsg, NewViewMsg, digest_of,
}
use byz_bank.Pbft.State.{Engine, SeqState}

-- `st.prePrepare && !st.executed && st.digest != nil`. A missing digest and an empty one are the same here;
-- Go tells them apart where a message has the empty text for its digest.
abbrev pub is_reported : SeqState → Bool
is_reported st = st.pre_prepare && not st.executed && not (st.digest == [])

unfoldable pub prepared_entries : ℤ → GoMap ℤ SeqState → List PreparedEntry
prepared_entries view [] = []
prepared_entries view ((seq, st) ∷ log) =
    let rest = prepared_entries view log in
    if is_reported st
    then record { seq = seq; view = view; digest = st.digest; req = st.req } ∷ rest
    else rest

abbrev pub map_values {ℓ κ} : {K : Type ℓ} {V : Type κ} → GoMap K V → List V
map_values [] = []
map_values ((k, v) ∷ m) = v ∷ map_values m

-- `if cur, ok := prepared[pe.Seq]; !ok || pe.View >= cur.View`
abbrev pub replaces : PreparedEntry → Option PreparedEntry → Bool
replaces pe none = true
replaces pe (some cur) = leb_ℤ cur.view pe.view

unfoldable pub keep_prepared : ℤ → PreparedEntry → GoMap ℤ PreparedEntry → GoMap ℤ PreparedEntry
keep_prepared stable pe m =
    if leb_ℤ pe.seq stable then m else if replaces pe (get pe.seq m) then put pe.seq pe m else m

unfoldable pub keep_all : ℤ → List PreparedEntry → GoMap ℤ PreparedEntry → GoMap ℤ PreparedEntry
unfolding keep_prepared
keep_all stable [] m = m
keep_all stable (pe ∷ pes) m = keep_all stable pes (keep_prepared stable pe m)

-- The stable number met so far, and the slots kept so far, over the messages of the view change.
unfoldable pub stable_max : ℤ → List ViewChangeMsg → ℤ
stable_max stable [] = stable
stable_max stable (vc ∷ vcs) =
    stable_max (if ltb_ℤ stable vc.latest_stable then vc.latest_stable else stable) vcs

unfoldable pub gather_prepared :
    ℤ → List ViewChangeMsg → GoMap ℤ PreparedEntry → GoMap ℤ PreparedEntry
unfolding keep_all
gather_prepared stable [] m = m
gather_prepared stable (vc ∷ vcs) m =
    let stable' = if ltb_ℤ stable vc.latest_stable then vc.latest_stable else stable in
    gather_prepared stable' vcs (keep_all stable' vc.prepared m)

-- `for seq := range prepared { if seq > maxSeq { … } }`
unfoldable pub seq_max : ℤ → GoMap ℤ PreparedEntry → ℤ
seq_max top [] = top
seq_max top ((seq, pe) ∷ m) = seq_max (if ltb_ℤ top seq then seq else top) m

-- The slots that are proposed again, and the pending requests that are left.
unfoldable pub repropose : ℤ → GoMap ℤ PreparedEntry → List PrePrepareMsg
repropose new_view [] = []
repropose new_view ((seq, pe) ∷ m) =
    record { seq = seq; view = new_view; digest = pe.digest; req = pe.req } ∷ repropose new_view m

unfoldable pub drop_reproposed : GoMap ℤ PreparedEntry → GoMap Bytes Request → GoMap Bytes Request
drop_reproposed [] pending = pending
drop_reproposed ((seq, pe) ∷ m) pending = drop_reproposed m (delete pe.digest pending)

module _ (db : Bolt) (c : Crypto) where
  unfoldable pub keep_pending : List Request → GoMap Bytes Request → GoMap Bytes Request
  keep_pending [] m = m
  keep_pending (r ∷ rs) m = keep_pending rs (put (digest_of c r) r m)

  unfoldable pub gather_pending : List ViewChangeMsg → GoMap Bytes Request → GoMap Bytes Request
  unfolding keep_pending
  gather_pending [] m = m
  gather_pending (vc ∷ vcs) m = gather_pending vcs (keep_pending vc.pending_reqs m)

  unfoldable pub build_view_change : Engine db → ViewChangeMsg
  unfolding prepared_entries
  build_view_change e =
      let latest = e.exec_seq -64 pos 1 in
      record {
        new_view = e.view +64 pos 1;
        latest_stable = if ltb_ℤ latest (pos 0) then pos 0 else latest;
        prepared = prepared_entries e.view e.log;
        pending_reqs = map_values e.pending_clients;
      }

  -- The loop over the pending requests that are left, in the order `pending`.
  unfoldable pub propose_pending : Store db → ℤ → ℤ → GoMap Bytes Request → List PrePrepareMsg
  propose_pending s new_view next [] = []
  propose_pending s new_view next ((key, r) ∷ pending) =
      let skipped = propose_pending s new_view next pending in
      let proposed = propose_pending s new_view (next +64 pos 1) pending in
      if leb_ℤ r.ts (get_client_ts db s r.client_id)
      then skipped
      else if ltb_ℤ (get_balance db s r.x) r.amt
      then skipped
      else record { seq = next; view = new_view; digest = digest_of c r; req = r } ∷ proposed

  -- The pre-prepares for the slots `prepared` and the requests `pending`, each in the order in which
  -- Go ranges over the map.
  unfoldable pub new_view_proposals :
      Store db → ℤ → ℤ → ℤ → GoMap ℤ PreparedEntry → GoMap Bytes Request → List PrePrepareMsg
  unfolding seq_max repropose propose_pending
  new_view_proposals s new_view stable own_next prepared pending =
      let next = seq_max stable prepared +64 pos 1 in
      repropose new_view prepared
      ++ propose_pending s new_view (if ltb_ℤ next own_next then own_next else next) pending

  abbrev pub reports_or_empty : Option (GoMap ℕ ViewChangeMsg) → GoMap ℕ ViewChangeMsg
  reports_or_empty none = []
  reports_or_empty (some m) = m

  unfoldable pub build_new_view : ℤ → Engine db → NewViewMsg
  unfolding stable_max gather_prepared gather_pending drop_reproposed new_view_proposals
  build_new_view new_view e =
      let vcs = map_values (reports_or_empty (get new_view e.view_change_log)) in
      let prepared = gather_prepared (pos 0) vcs [] in
      let pending = keep_pending (map_values e.pending_clients) (gather_pending vcs []) in
      record {
        new_view = new_view;
        pre_prepares =
            new_view_proposals e.store new_view (stable_max (pos 0) vcs) e.next_seq prepared
              (drop_reproposed prepared pending);
        view_changes = vcs;
      }
