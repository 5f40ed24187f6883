-- ===== src/Pbft/NewView/Reports.antt =====
-- Which slots of the reports a NEW-VIEW message keeps, `buildNewViewLocked` of
-- internal/pbft/viewchange.go.
use byz_bank.Prelude.{
  In, ◌≡◌, refl, sym, inl, inr, true, false, List, [], ◌∷◌, Option, none, some, arith, Bool-cases,
  if◌then◌else◌,
}
use byz_bank.Prelude.Int.{ℤ, ◌<ℤ◌, ◌≤ℤ◌, leb_ℤ, ltb_ℤ, int_key}
use byz_bank.Prelude.Keys.{◌==◌, GoMap, get, put, get-put, get-put_self}
use byz_bank.Pbft.Messages.{PreparedEntry, ViewChangeMsg}
use byz_bank.Pbft.NewView.{replaces, keep_prepared, keep_all, stable_max, gather_prepared}

-- The map has an entry for the slot of `pe` from a view that is not older.
abbrev pub Covers : PreparedEntry → GoMap ℤ PreparedEntry → Type 0
Covers pe m = (best : PreparedEntry) × (get pe.seq m ≡ some best) × (pe.view ≤ℤ best.view)

covered_by_put :
    (pe q : PreparedEntry) (o : Option PreparedEntry)
    → (best : PreparedEntry) × (o ≡ some best) × (pe.view ≤ℤ best.view)
    → replaces q o ≡ true
    → pe.view ≤ℤ q.view
covered_by_put pe q none (best, e, h) r = cc e
covered_by_put pe q (some cur) (best, e, h) r =
    let same : cur ≡ best = cc e in
    let below : cur.view ≤ℤ q.view = ground arith in
    let under : pe.view ≤ℤ cur.view = rw same h in omega arith

keep_prepared-Covers :
    (stable : ℤ) (pe q : PreparedEntry) (m : GoMap ℤ PreparedEntry)
    → Covers pe m
    → Covers pe (keep_prepared stable q m)
unfolding keep_prepared
keep_prepared-Covers stable pe q m h = elim (Bool-cases (leb_ℤ q.seq stable)) [
  | inl old ↦ rw old h
  | inr new ↦ elim (Bool-cases (replaces q (get q.seq m))) [
    | inr kept ↦ rw (new, kept) h
    | inl put_in ↦ elim (Bool-cases (q.seq == pe.seq)) [
      | inr other ↦ rw (new, put_in, get-put q.seq pe.seq q m, other) h
      | inl same ↦
          let eq : q.seq ≡ pe.seq = (int_key.beq_iff q.seq pe.seq).0 same in
          rw (new, put_in, get-put q.seq pe.seq q m, same)
            (q, refl, covered_by_put pe q (get q.seq m) (rw eq h) put_in)
    ]
  ]
]

self_covered :
    (pe : PreparedEntry) (o : Option PreparedEntry)
    → replaces pe o ≡ false
    → (best : PreparedEntry) × (o ≡ some best) × (pe.view ≤ℤ best.view)
self_covered pe none h = cc h
self_covered pe (some cur) h = (cur, refl, ground arith)

keep_prepared-Covers_self :
    (stable : ℤ) (pe : PreparedEntry) (m : GoMap ℤ PreparedEntry)
    → stable <ℤ pe.seq
    → Covers pe (keep_prepared stable pe m)
unfolding keep_prepared
keep_prepared-Covers_self stable pe m h =
    let new : leb_ℤ pe.seq stable ≡ false = ground arith in
    elim (Bool-cases (replaces pe (get pe.seq m))) [
      | inl put_in ↦ rw (new, put_in) (pe, get-put_self pe.seq pe m, omega arith)
      | inr kept ↦ rw (new, kept) (self_covered pe (get pe.seq m) kept)
    ]

keep_all-Covers :
    (stable : ℤ) (pe : PreparedEntry) (qs : List PreparedEntry) (m : GoMap ℤ PreparedEntry)
    → Covers pe m
    → Covers pe (keep_all stable qs m)
unfolding keep_all
keep_all-Covers stable pe [] m h = h
keep_all-Covers stable pe (q ∷ qs) m h =
    keep_all-Covers stable pe qs (keep_prepared stable q m) (keep_prepared-Covers stable pe q m h)

keep_all-Covers-In :
    (stable : ℤ) (pe : PreparedEntry) (qs : List PreparedEntry) (m : GoMap ℤ PreparedEntry)
    → In pe qs
    → stable <ℤ pe.seq
    → Covers pe (keep_all stable qs m)
unfolding keep_all
keep_all-Covers-In stable pe [] m h lt = elim h [ ]
keep_all-Covers-In stable pe (q ∷ qs) m (inl e) lt =
    keep_all-Covers stable pe qs (keep_prepared stable q m)
      (rw (sym e) (keep_prepared-Covers_self stable pe m lt))
keep_all-Covers-In stable pe (q ∷ qs) m (inr h) lt =
    keep_all-Covers-In stable pe qs (keep_prepared stable q m) h lt

pub stable_max-le : (stable : ℤ) (vcs : List ViewChangeMsg) → stable ≤ℤ stable_max stable vcs
unfolding stable_max
stable_max-le stable [] = omega arith
stable_max-le stable (vc ∷ vcs) = elim (Bool-cases (ltb_ℤ stable vc.latest_stable)) [
  | inl up ↦ rw up (ground (arith, stable_max-le vc.latest_stable vcs))
  | inr down ↦ rw down (stable_max-le stable vcs)
]

abbrev next_stable : ℤ → ViewChangeMsg → ℤ
next_stable stable vc = if ltb_ℤ stable vc.latest_stable then vc.latest_stable else stable

gather_prepared-Covers :
    (stable : ℤ) (pe : PreparedEntry) (vcs : List ViewChangeMsg) (m : GoMap ℤ PreparedEntry)
    → Covers pe m
    → Covers pe (gather_prepared stable vcs m)
unfolding gather_prepared
gather_prepared-Covers stable pe [] m h = h
gather_prepared-Covers stable pe (vc ∷ vcs) m h =
    gather_prepared-Covers (next_stable stable vc) pe vcs _
      (keep_all-Covers (next_stable stable vc) pe vc.prepared m h)

pub gather_prepared-Covers-In :
    (stable : ℤ) (pe : PreparedEntry) (vc : ViewChangeMsg) (vcs : List ViewChangeMsg)
    (m : GoMap ℤ PreparedEntry)
    → In vc vcs
    → In pe vc.prepared
    → stable_max stable vcs <ℤ pe.seq
    → Covers pe (gather_prepared stable vcs m)
unfolding gather_prepared stable_max
gather_prepared-Covers-In stable pe vc [] m h k lt = elim h [ ]
gather_prepared-Covers-In stable pe vc (w ∷ vcs) m (inl e) k lt =
    let below = stable_max-le (next_stable stable w) vcs in
    gather_prepared-Covers (next_stable stable w) pe vcs _
      (keep_all-Covers-In (next_stable stable w) pe w.prepared m (rw (← e) k) (omega arith))
gather_prepared-Covers-In stable pe vc (w ∷ vcs) m (inr h) k lt =
    gather_prepared-Covers-In (next_stable stable w) pe vc vcs _ h k lt

-- Where an entry of the map comes from.
abbrev pub IsReported : List ViewChangeMsg → ℤ → PreparedEntry → Type 0
IsReported vcs seq pe = (vc : ViewChangeMsg) × In vc vcs × In pe vc.prepared × (pe.seq ≡ seq)

abbrev IsFrom : (PreparedEntry → Type 0) → GoMap ℤ PreparedEntry → Type 0
IsFrom P m = (seq : ℤ) (pe : PreparedEntry) → get seq m ≡ some pe → P pe × (pe.seq ≡ seq)

put-IsFrom :
    (P : PreparedEntry → Type 0) (q : PreparedEntry) (m : GoMap ℤ PreparedEntry)
    → P q
    → IsFrom P m
    → IsFrom P (put q.seq q m)
put-IsFrom P q m p h seq pe found = elim (Bool-cases (q.seq == seq)) [
  | inl same ↦
      let eq : q.seq ≡ seq = (int_key.beq_iff q.seq seq).0 same in
      let is : q ≡ pe = cc (rw (get-put q.seq seq q m, same) at found) in rw (sym is) (p, eq)
  | inr other ↦ h seq pe (rw (get-put q.seq seq q m, other) at found)
]

keep_prepared-IsFrom :
    (P : PreparedEntry → Type 0) (stable : ℤ) (q : PreparedEntry) (m : GoMap ℤ PreparedEntry)
    → P q
    → IsFrom P m
    → IsFrom P (keep_prepared stable q m)
unfolding keep_prepared
keep_prepared-IsFrom P stable q m p h = elim (Bool-cases (leb_ℤ q.seq stable)) [
  | inl old ↦ rw old h
  | inr new ↦ elim (Bool-cases (replaces q (get q.seq m))) [
    | inl put_in ↦ rw (new, put_in) (put-IsFrom P q m p h)
    | inr kept ↦ rw (new, kept) h
  ]
]

keep_all-IsFrom :
    (P : PreparedEntry → Type 0) (stable : ℤ) (qs : List PreparedEntry) (m : GoMap ℤ PreparedEntry)
    → ((q : PreparedEntry) → In q qs → P q)
    → IsFrom P m
    → IsFrom P (keep_all stable qs m)
unfolding keep_all
keep_all-IsFrom P stable [] m p h = h
keep_all-IsFrom P stable (q ∷ qs) m p h =
    keep_all-IsFrom P stable qs _ (λ r i. p r (inr i))
      (keep_prepared-IsFrom P stable q m (p q (inl refl)) h)

pub gather_prepared-IsFrom :
    (P : PreparedEntry → Type 0) (stable : ℤ) (vcs : List ViewChangeMsg) (m : GoMap ℤ PreparedEntry)
    → ((vc : ViewChangeMsg) (q : PreparedEntry) → In vc vcs → In q vc.prepared → P q)
    → IsFrom P m
    → IsFrom P (gather_prepared stable vcs m)
unfolding gather_prepared
gather_prepared-IsFrom P stable [] m p h = h
gather_prepared-IsFrom P stable (vc ∷ vcs) m p h =
    gather_prepared-IsFrom P (next_stable stable vc) vcs _ (λ w q i j. p w q (inr i) j)
      (keep_all-IsFrom P (next_stable stable vc) vc.prepared m (λ q j. p vc q (inl refl) j) h)
