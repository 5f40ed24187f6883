-- ===== src/Pbft/NewView/Proposals.antt =====
-- What a NEW-VIEW message proposes, `buildNewViewLocked` of internal/pbft/viewchange.go.
use byz_bank.Prelude.{
  ℕ, suc, ◌+◌, ◌^◌, ◌<◌, ◌≡◌, ◌≢◌, ◌∙◌, inl, inr, List, [], ◌∷◌, ◌++◌, some, arith, Bool-cases,
  if◌then◌else◌, length, All, All-append, In, In-append_left,
}
use byz_bank.Prelude.Int.{
  ℤ, pos, negsuc, ◌+ℤ◌, ◌≤ℤ◌, ◌<ℤ◌, leb_ℤ, ltb_ℤ, int_key, pos_part, ◌+64◌, +64-eq,
}
use byz_bank.Prelude.Keys.{GoMap, get}
use byz_bank.Prelude.Text.{Bytes}
use byz_bank.Store.Bbolt.{Bolt}
use byz_bank.Store.{Store, get_balance, get_client_ts}
use byz_bank.Pbft.Crypto.{Crypto}
use byz_bank.Pbft.Messages.{Request, PreparedEntry, ViewChangeMsg, PrePrepareMsg}
use byz_bank.Pbft.State.{Engine}
use byz_bank.Pbft.NewView.{
  map_values, stable_max, seq_max, gather_prepared, repropose, propose_pending, new_view_proposals,
  gather_pending, keep_pending, drop_reproposed, reports_or_empty, build_new_view,
}
use byz_bank.Pbft.NewView.Reports.{IsReported, gather_prepared-Covers-In, gather_prepared-IsFrom}
use byz_bank.Pbft.NewView.Slots.{
  DistinctSlots, DistinctSeqs, gather_prepared-DistinctSlots, seq_max-All, In-repropose,
  repropose-All, repropose-DistinctSeqs,
}

-- There is room for `k` numbers from `next` on.
abbrev pub HasRoom : ℤ → ℕ → Type 0
HasRoom next k = (pos 0 ≤ℤ next) × (pos_part next + k < 2 ^ 63)

step-eq : (next : ℤ) (k : ℕ) → HasRoom next (suc k) → next +64 pos 1 ≡ pos (pos_part next + 1)
unfolding ◌+ℤ◌
step-eq (pos n) k h = +64-eq (pos n) (pos 1) (ground arith) ∙ ground arith
step-eq (negsuc n) k h = absurd (omega arith)

step-HasRoom : (next : ℤ) (k : ℕ) → HasRoom next (suc k) → HasRoom (next +64 pos 1) k
step-HasRoom next k h = rw (step-eq next k h) (omega arith)

beyond : (a b bound : ℤ) → a <ℤ bound → bound ≤ℤ b → a ≡ b → ⊥
beyond a b bound h k e = let h' : b <ℤ bound = rw e at h in absurd (omega arith)

DistinctSeqs-append :
    (bound : ℤ) (xs ys : List PrePrepareMsg)
    → All (λ pp. pp.seq <ℤ bound) xs
    → All (λ pp. bound ≤ℤ pp.seq) ys
    → DistinctSeqs xs
    → DistinctSeqs ys
    → DistinctSeqs (xs ++ ys)
DistinctSeqs-append bound [] ys below above dx dy = dy
DistinctSeqs-append bound (x ∷ xs) ys (b, below) above (n, dx) dy = (
  All-append (λ other. x.seq ≢ other.seq) xs ys n (apart ys above),
  DistinctSeqs-append bound xs ys below above dx dy,
)
  where
    apart :
        (zs : List PrePrepareMsg)
        → All (λ pp. bound ≤ℤ pp.seq) zs
        → All (λ other. x.seq ≢ other.seq) zs
    apart [] h = tt
    apart (z ∷ zs) (h, rest) = (λ e. absurd (beyond x.seq z.seq bound b h e), apart zs rest)

later :
    (next : ℤ) (pps : List PrePrepareMsg)
    → All (λ pp. pos (pos_part next + 1) ≤ℤ pp.seq) pps
    → All (λ pp. next ≢ pp.seq) pps
later next [] h = tt
later next (pp ∷ pps) (h, rest) = (
  λ e. absurd (beyond next pp.seq (pos (pos_part next + 1)) (omega arith) h e),
  later next pps rest,
)

All-lt :
    (top : ℤ) (m : GoMap ℤ PreparedEntry)
    → All (λ entry. entry.0 ≤ℤ top) m
    → pos 0 ≤ℤ top
    → All (λ entry. entry.0 <ℤ pos (pos_part top + 1)) m
All-lt top [] h up = tt
All-lt top (entry ∷ m) (h, rest) up = (omega arith, All-lt top m rest up)

start_fits :
    (next own_next : ℤ) (k : ℕ)
    → HasRoom next k
    → HasRoom own_next k
    → HasRoom (if ltb_ℤ next own_next then own_next else next) k
      × (next ≤ℤ (if ltb_ℤ next own_next then own_next else next))
start_fits next own_next k h own = ground arith

nothing_kept :
    (P : PreparedEntry → Type 0) (seq : ℤ) (pe : PreparedEntry)
    → get seq [] ≡ some pe
    → P pe × (pe.seq ≡ seq)
unfolding get
nothing_kept P seq pe found = cc found

module _ (db : Bolt) (c : Crypto) where
  propose_pending-All :
      (s : Store db) (new_view next bound : ℤ) (pending : GoMap Bytes Request)
      → HasRoom next (length pending)
      → bound ≤ℤ next
      → All (λ pp. bound ≤ℤ pp.seq) (propose_pending db c s new_view next pending)
  unfolding propose_pending
  propose_pending-All s new_view next bound [] h le = tt
  propose_pending-All s new_view next bound ((key, r) ∷ pending) h le =
      let skipped = propose_pending-All s new_view next bound pending (omega arith) le in
      let after =
        propose_pending-All s new_view (next +64 pos 1) bound pending
          (step-HasRoom next (length pending) h)
          (rw (step-eq next (length pending) h) (omega arith)) in
      elim (Bool-cases (leb_ℤ r.ts (get_client_ts db s r.client_id))) [
        | inl old ↦ rw old skipped
        | inr new ↦ elim (Bool-cases (ltb_ℤ (get_balance db s r.x) r.amt)) [
          | inl poor ↦ rw (new, poor) skipped
          | inr rich ↦ rw (new, rich) (le, after)
        ]
      ]

  propose_pending-DistinctSeqs :
      (s : Store db) (new_view next : ℤ) (pending : GoMap Bytes Request)
      → HasRoom next (length pending)
      → DistinctSeqs (propose_pending db c s new_view next pending)
  unfolding propose_pending
  propose_pending-DistinctSeqs s new_view next [] h = tt
  propose_pending-DistinctSeqs s new_view next ((key, r) ∷ pending) h =
      let skipped = propose_pending-DistinctSeqs s new_view next pending (omega arith) in
      let room = step-HasRoom next (length pending) h in
      let after = propose_pending-DistinctSeqs s new_view (next +64 pos 1) pending room in
      let above =
        propose_pending-All s new_view (next +64 pos 1) (pos (pos_part next + 1)) pending room
          (rw (step-eq next (length pending) h) (omega arith)) in
      elim (Bool-cases (leb_ℤ r.ts (get_client_ts db s r.client_id))) [
        | inl old ↦ rw old skipped
        | inr new ↦ elim (Bool-cases (ltb_ℤ (get_balance db s r.x) r.amt)) [
          | inl poor ↦ rw (new, poor) skipped
          | inr rich ↦ rw (new, rich) (later next _ above, after)
        ]
      ]

  -- The slots and the pending requests of a NEW-VIEW message, and the largest stable number.
  abbrev pub votes_for : ℤ → Engine db → List ViewChangeMsg
  votes_for new_view e = map_values (reports_or_empty db c (get new_view e.view_change_log))

  abbrev pub kept_slots : ℤ → Engine db → GoMap ℤ PreparedEntry
  kept_slots new_view e = gather_prepared (pos 0) (votes_for new_view e) []

  abbrev pub open_requests : ℤ → Engine db → GoMap Bytes Request
  open_requests new_view e = drop_reproposed (kept_slots new_view e) (
      keep_pending db c (map_values e.pending_clients)
        (gather_pending db c (votes_for new_view e) []))

  abbrev pub last_seq : ℤ → Engine db → ℤ
  last_seq new_view e = seq_max (stable_max (pos 0) (votes_for new_view e)) (kept_slots new_view e)

  new_view_proposals-DistinctSeqs :
      (s : Store db) (new_view stable own_next : ℤ) (prepared : GoMap ℤ PreparedEntry)
      (pending : GoMap Bytes Request)
      → DistinctSlots prepared
      → HasRoom (seq_max stable prepared) (suc (length pending))
      → HasRoom own_next (length pending)
      → DistinctSeqs (new_view_proposals db c s new_view stable own_next prepared pending)
  unfolding new_view_proposals
  new_view_proposals-DistinctSeqs s new_view stable own_next prepared pending d room own =
      let top = seq_max stable prepared in
      let next = top +64 pos 1 in
      let bound : ℤ = pos (pos_part top + 1) in
      let is : next ≡ bound = step-eq top (length pending) room in
      let below =
        repropose-All (λ k. k <ℤ bound) new_view prepared
          (All-lt top prepared (seq_max-All stable top prepared (omega arith)) (omega arith)) in
      let start : ℤ = if ltb_ℤ next own_next then own_next else next in
      let (fits, above) = start_fits bound own_next (length pending) (omega arith) own in
      rw is (
        DistinctSeqs-append bound (repropose new_view prepared) _ below
          (propose_pending-All s new_view _ bound pending fits above)
          (repropose-DistinctSeqs new_view prepared d)
          (propose_pending-DistinctSeqs s new_view _ pending fits))

  -- The pre-prepares of a NEW-VIEW message have different sequence numbers, whatever the replicas
  -- reported and whatever requests are pending, as long as the numbers do not run out of 63 bits.
  pub build_new_view-DistinctSeqs :
      (new_view : ℤ) (e : Engine db)
      → HasRoom (last_seq new_view e) (suc (length (open_requests new_view e)))
      → HasRoom e.next_seq (length (open_requests new_view e))
      → DistinctSeqs (build_new_view db c new_view e).pre_prepares
  unfolding build_new_view
  build_new_view-DistinctSeqs new_view e room own =
      new_view_proposals-DistinctSeqs e.store new_view _ e.next_seq (kept_slots new_view e)
        (open_requests new_view e)
        (gather_prepared-DistinctSlots (pos 0) (votes_for new_view e) [] tt) room own

  -- A slot that a vote for the view reports, above every stable number of the votes, is in the NEW-VIEW
  -- message, with the digest and the request of a vote for that slot whose view is not older.
  pub build_new_view-IsReported :
      (new_view : ℤ) (e : Engine db) (vc : ViewChangeMsg) (pe : PreparedEntry)
      → In vc (votes_for new_view e)
      → In pe vc.prepared
      → stable_max (pos 0) (votes_for new_view e) <ℤ pe.seq
      → (best : PreparedEntry) × IsReported (votes_for new_view e) pe.seq best
        × (pe.view ≤ℤ best.view)
        × In
            (record { seq = pe.seq; view = new_view; digest = best.digest; req = best.req })
            (build_new_view db c new_view e).pre_prepares
  unfolding build_new_view new_view_proposals
  build_new_view-IsReported new_view e vc pe voted reported above =
      let vcs = votes_for new_view e in
      let (best, found, newer) =
        gather_prepared-Covers-In (pos 0) pe vc vcs [] voted reported above in
      let ((w, i, j), at) =
        gather_prepared-IsFrom (λ q. (w : ViewChangeMsg) × In w vcs × In q w.prepared) (pos 0) vcs
          [] (λ w q i j. (w, i, j)) (nothing_kept _) pe.seq best found in
      (
        best,
        (w, i, j, at),
        newer,
        In-append_left _ _ _ (In-repropose new_view pe.seq best (kept_slots new_view e) found),
      )
