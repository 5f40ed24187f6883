-- ===== src/Pbft/NewView/Slots.antt =====
-- The slots that a NEW-VIEW message proposes again, `buildNewViewLocked` of internal/pbft/viewchange.go.
use byz_bank.Prelude.{
  ◌≡◌, ◌≢◌, inl, inr, List, [], ◌∷◌, some, arith, Bool-cases, if◌then◌else◌, All, In,
}
use byz_bank.Prelude.Int.{ℤ, ◌≤ℤ◌, leb_ℤ, ltb_ℤ, int_key}
use byz_bank.Prelude.Keys.{◌==◌, GoMap, get, put}
use byz_bank.Pbft.Messages.{PreparedEntry, ViewChangeMsg, PrePrepareMsg}
use byz_bank.Pbft.NewView.{replaces, keep_prepared, keep_all, seq_max, gather_prepared, repropose}

abbrev NoSlot : ℤ → GoMap ℤ PreparedEntry → Type 0
NoSlot seq m = All (λ entry. seq ≢ entry.0) m

abbrev pub DistinctSlots : GoMap ℤ PreparedEntry → Type 0
DistinctSlots [] = Unit {0}
DistinctSlots ((seq, pe) ∷ m) = NoSlot seq m × DistinctSlots m

-- No two pre-prepares have one sequence number.
abbrev pub DistinctSeqs : List PrePrepareMsg → Type 0
DistinctSeqs [] = Unit {0}
DistinctSeqs (pp ∷ pps) = All (λ other. pp.seq ≢ other.seq) pps × DistinctSeqs pps

NoSlot-put :
    (seq k : ℤ) (pe : PreparedEntry) (m : GoMap ℤ PreparedEntry)
    → seq ≢ k
    → NoSlot seq m
    → NoSlot seq (put k pe m)
unfolding put
NoSlot-put seq k pe [] ne h = (ne, tt)
NoSlot-put seq k pe ((j, q) ∷ m) ne (h, rest) = elim (Bool-cases (j == k)) [
  | inl same ↦ rw same (ne, rest)
  | inr other ↦ rw other (h, NoSlot-put seq k pe m ne rest)
]

put-DistinctSlots :
    (k : ℤ) (pe : PreparedEntry) (m : GoMap ℤ PreparedEntry)
    → DistinctSlots m
    → DistinctSlots (put k pe m)
unfolding put
put-DistinctSlots k pe [] d = (tt, tt)
put-DistinctSlots k pe ((j, q) ∷ m) (h, d) = elim (Bool-cases (j == k)) [
  | inl same ↦ rw same (rw ((int_key.beq_iff j k).0 same) at h, d)
  | inr other ↦
      let ne : j ≢ k = λ e. cc ((int_key.beq_iff j k).1 e, other) in
      rw other (NoSlot-put j k pe m ne h, put-DistinctSlots k pe m d)
]

keep_prepared-DistinctSlots :
    (stable : ℤ) (pe : PreparedEntry) (m : GoMap ℤ PreparedEntry)
    → DistinctSlots m
    → DistinctSlots (keep_prepared stable pe m)
unfolding keep_prepared
keep_prepared-DistinctSlots stable pe m d = elim (Bool-cases (leb_ℤ pe.seq stable)) [
  | inl old ↦ rw old d
  | inr new ↦ elim (Bool-cases (replaces pe (get pe.seq m))) [
    | inl put_in ↦ rw (new, put_in) (put-DistinctSlots pe.seq pe m d)
    | inr kept ↦ rw (new, kept) d
  ]
]

keep_all-DistinctSlots :
    (stable : ℤ) (pes : List PreparedEntry) (m : GoMap ℤ PreparedEntry)
    → DistinctSlots m
    → DistinctSlots (keep_all stable pes m)
unfolding keep_all
keep_all-DistinctSlots stable [] m d = d
keep_all-DistinctSlots stable (pe ∷ pes) m d =
    keep_all-DistinctSlots stable pes _ (keep_prepared-DistinctSlots stable pe m d)

pub gather_prepared-DistinctSlots :
    (stable : ℤ) (vcs : List ViewChangeMsg) (m : GoMap ℤ PreparedEntry)
    → DistinctSlots m
    → DistinctSlots (gather_prepared stable vcs m)
unfolding gather_prepared
gather_prepared-DistinctSlots stable [] m d = d
gather_prepared-DistinctSlots stable (vc ∷ vcs) m d =
    let stable' = if ltb_ℤ stable vc.latest_stable then vc.latest_stable else stable in
    gather_prepared-DistinctSlots stable' vcs (keep_all stable' vc.prepared m)
      (keep_all-DistinctSlots stable' vc.prepared m d)

pub seq_max-le : (top : ℤ) (m : GoMap ℤ PreparedEntry) → top ≤ℤ seq_max top m
unfolding seq_max
seq_max-le top [] = omega arith
seq_max-le top ((seq, pe) ∷ m) = elim (Bool-cases (ltb_ℤ top seq)) [
  | inl up ↦ rw up (ground (arith, seq_max-le seq m))
  | inr down ↦ rw down (seq_max-le top m)
]

pub seq_max-All :
    (top bound : ℤ) (m : GoMap ℤ PreparedEntry)
    → seq_max top m ≤ℤ bound
    → All (λ entry. entry.0 ≤ℤ bound) m
unfolding seq_max
seq_max-All top bound [] h = tt
seq_max-All top bound ((seq, pe) ∷ m) h = elim (Bool-cases (ltb_ℤ top seq)) [
  | inl up ↦
      let k : seq_max seq m ≤ℤ bound = rw up at h in
      (omega (arith, seq_max-le seq m), seq_max-All seq bound m k)
  | inr down ↦
      let k : seq_max top m ≤ℤ bound = rw down at h in
      (ground (arith, seq_max-le top m), seq_max-All top bound m k)
]

-- A slot of the map is proposed again, with its digest and its request.
pub In-repropose :
    (new_view seq : ℤ) (pe : PreparedEntry) (m : GoMap ℤ PreparedEntry)
    → get seq m ≡ some pe
    → In
        (record { seq = seq; view = new_view; digest = pe.digest; req = pe.req })
        (repropose new_view m)
unfolding repropose get
In-repropose new_view seq pe [] found = cc found
In-repropose new_view seq pe ((j, q) ∷ m) found = elim (Bool-cases (j == seq)) [
  | inl same ↦
      let eq : j ≡ seq = (int_key.beq_iff j seq).0 same in
      let is : q ≡ pe = cc (rw same at found) in inl (cc (eq, is))
  | inr other ↦ inr (In-repropose new_view seq pe m (rw other at found))
]

pub repropose-All :
    (P : ℤ → Type 0) (new_view : ℤ) (m : GoMap ℤ PreparedEntry)
    → All (λ entry. P entry.0) m
    → All (λ pp. P pp.seq) (repropose new_view m)
unfolding repropose
repropose-All P new_view [] h = tt
repropose-All P new_view ((seq, pe) ∷ m) (h, rest) = (h, repropose-All P new_view m rest)

pub repropose-DistinctSeqs :
    (new_view : ℤ) (m : GoMap ℤ PreparedEntry)
    → DistinctSlots m
    → DistinctSeqs (repropose new_view m)
unfolding repropose
repropose-DistinctSeqs new_view [] d = tt
repropose-DistinctSeqs new_view ((seq, pe) ∷ m) (h, d) =
    (repropose-All (λ k. seq ≢ k) new_view m h, repropose-DistinctSeqs new_view m d)
