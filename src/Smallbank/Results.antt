-- ===== src/Smallbank/Results.antt =====
-- `collectResult` and `waitResult` of internal/smallbank/driver.go: the driver asks every server of a cluster
-- for its reply and takes the first result that enough of them report.
use byz_bank.Prelude.{
  ℕ, ◌+◌, ◌≤◌, ◌<◌, ◌≡◌, refl, sym, subst, true, false, inl, inr, List, [], ◌∷◌, Option, none, some,
  arith, Bool-cases, Option-cases, if◌then◌else◌, leb,
}
use byz_bank.Prelude.Keys.{◌==◌, nat_key, GoMap, get, put, get-put, beq_refl}
use byz_bank.Prelude.Text.{Bytes, bytes_key}
use byz_bank.Prelude.Int.{ℤ}
use byz_bank.Config.{Topology, Server, client_quorum, cluster_of, servers_in_cluster}
use byz_bank.Testcase.Oracle.{or_zero}
use byz_bank.Testcase.Multiset.{count, get-counted}

-- `Remote.LookupReply` as a function of the server: the result of its reply, `none` on an error or if there is none.
abbrev pub Lookup : Type 0
Lookup = ℕ → Option Bytes

-- The loop of `collectResult` over the servers, with the count of each result so far.
unfoldable pub collect_among : ℕ → Lookup → List Server → GoMap Bytes ℕ → Option Bytes
collect_among quorum look [] matches = none
collect_among quorum look (srv ∷ rest) matches = elim (look srv.id) [
  | none ↦ collect_among quorum look rest matches
  | some r ↦
      let n = or_zero (get r matches) + 1 in
      let later = collect_among quorum look rest (put r n matches) in
      if leb quorum n then some r else later
]

unfoldable pub collect_result : Topology → Lookup → ℤ → Option Bytes
unfolding collect_among
collect_result t look x =
    collect_among (client_quorum t) look (servers_in_cluster t (cluster_of t x)) []

-- The rounds of `waitResult` until its deadline, each with what the servers report in it.
unfoldable pub wait_result : Topology → List Lookup → ℤ → Option Bytes
unfolding collect_result
wait_result t [] x = none
wait_result t (look ∷ looks) x =
    let rest = wait_result t looks x in
    elim (collect_result t look x) [ none ↦ rest | some r ↦ some r ]

-- The results that these servers report.
unfoldable pub reports : Lookup → List Server → List Bytes
reports look [] = []
reports look (srv ∷ rest) = elim (look srv.id) [
  | none ↦ reports look rest
  | some r ↦ r ∷ reports look rest
]

-- A result is agreed on if `quorum` reports have it, and missing if no result has that many.
abbrev pub IsAgreed : ℕ → (Bytes → ℕ) → Option Bytes → Type 0
IsAgreed quorum votes none = (r : Bytes) → votes r < quorum
IsAgreed quorum votes (some r) = quorum ≤ votes r

abbrev votes_for : Lookup → List Server → GoMap Bytes ℕ → Bytes → ℕ
votes_for look srvs m r = or_zero (get r m) + count r (reports look srvs)

IsAgreed-eq :
    (quorum : ℕ) (f g : Bytes → ℕ) (o : Option Bytes)
    → ((r : Bytes) → f r ≡ g r)
    → IsAgreed quorum f o
    → IsAgreed quorum g o
IsAgreed-eq quorum f g none same h = λ r. rw (← same r) (h r)
IsAgreed-eq quorum f g (some r) same h = rw (← same r) h

module _ (quorum : ℕ) (look : Lookup) (srv : Server) (rest : List Server) (m : GoMap Bytes ℕ) where
  reports_silent : look srv.id ≡ none → reports look (srv ∷ rest) ≡ reports look rest
  unfolding reports
  reports_silent h = rw (reports, h) refl

  reports_told :
      (v : Bytes) → look srv.id ≡ some v → reports look (srv ∷ rest) ≡ v ∷ reports look rest
  unfolding reports
  reports_told v h = rw (reports, h) refl

  collect_silent :
      look srv.id ≡ none
      → collect_among quorum look (srv ∷ rest) m ≡ collect_among quorum look rest m
  unfolding collect_among
  collect_silent h = rw (collect_among, h) refl

  collect_told :
      (v : Bytes)
      → look srv.id ≡ some v
      → collect_among quorum look (srv ∷ rest) m ≡ (
          if leb quorum (or_zero (get v m) + 1)
          then some v
          else collect_among quorum look rest (put v (or_zero (get v m) + 1) m))
  unfolding collect_among
  collect_told v h = rw (collect_among, h) refl

  votes_silent :
      look srv.id ≡ none → (r : Bytes) → votes_for look rest m r ≡ votes_for look (srv ∷ rest) m r
  votes_silent h r = rw (reports_silent h) refl

  votes_told :
      (v : Bytes)
      → look srv.id ≡ some v
      → (r : Bytes)
      → votes_for look rest (put v (or_zero (get v m) + 1) m) r ≡ votes_for look (srv ∷ rest) m r
  votes_told v h r = rw (reports_told v h) (get-counted v r m (reports look rest))

  -- The count of a result after this server's report.
  counted_now :
      (v : Bytes) → look srv.id ≡ some v → or_zero (get v m) + 1 ≤ votes_for look (srv ∷ rest) m v
  unfolding count
  counted_now v h = rw (reports_told v h, beq_refl v) (omega arith)

  still_low :
      (v : Bytes)
      → leb quorum (or_zero (get v m) + 1) ≡ false
      → ((r : Bytes) → or_zero (get r m) < quorum)
      → (r : Bytes) → or_zero (get r (put v (or_zero (get v m) + 1) m)) < quorum
  still_low v few low r = elim (Bool-cases (v == r)) [
    | inl same ↦ rw (get-put v r (or_zero (get v m) + 1) m, same) (ground arith)
    | inr other ↦ rw (get-put v r (or_zero (get v m) + 1) m, other) (low r)
  ]

leb_le : (a b : ℕ) → leb a b ≡ true → a ≤ b
leb_le a b h = ground arith

collect_among-IsAgreed :
    (quorum : ℕ) (look : Lookup) (srvs : List Server) (m : GoMap Bytes ℕ)
    → ((r : Bytes) → or_zero (get r m) < quorum)
    → IsAgreed quorum (votes_for look srvs m) (collect_among quorum look srvs m)
unfolding collect_among reports count
collect_among-IsAgreed quorum look [] m low = λ r. omega (arith, low r)
collect_among-IsAgreed quorum look (srv ∷ rest) m low = elim (Option-cases (look srv.id)) [
  | inl quiet ↦
      subst (IsAgreed quorum (votes_for look (srv ∷ rest) m))
        (sym (collect_silent quorum look srv rest m quiet))
        (IsAgreed-eq quorum _ _ _ (votes_silent quorum look srv rest m quiet)
          (collect_among-IsAgreed quorum look rest m low))
  | inr (v, told) ↦
      let more = put v (or_zero (get v m) + 1) m in
      subst (IsAgreed quorum (votes_for look (srv ∷ rest) m))
        (sym (collect_told quorum look srv rest m v told))
        (elim (Bool-cases (leb quorum (or_zero (get v m) + 1))) [
          | inl enough ↦ rw enough (
              omega (
                arith,
                counted_now quorum look srv rest m v told,
                leb_le quorum (or_zero (get v m) + 1) enough,
              ))
          | inr few ↦ rw few (
              IsAgreed-eq quorum _ _ _ (votes_told quorum look srv rest m v told) (
                collect_among-IsAgreed quorum look rest more
                  (still_low quorum look srv rest m v few low)))
        ])
]

-- The driver takes a result exactly if f + 1 servers of the customer's cluster report it, so that a server
-- that is not faulty is among them; where it takes none, no result has that many.
pub collect_result-IsAgreed :
    (t : Topology) (look : Lookup) (x : ℤ)
    → IsAgreed
        (client_quorum t)
        (λ r. count r (reports look (servers_in_cluster t (cluster_of t x))))
        (collect_result t look x)
unfolding collect_result client_quorum get
collect_result-IsAgreed t look x =
    IsAgreed-eq (client_quorum t) _ _ _ (λ r. omega arith)
      (collect_among-IsAgreed (client_quorum t) look (servers_in_cluster t (cluster_of t x)) []
        (λ r. omega arith))
