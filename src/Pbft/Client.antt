-- ===== src/Pbft/Client.antt =====
-- internal/pbft/client.go: the collector of replies, and the client that waits for a quorum of them.
use byz_bank.Prelude.{
  ℕ, zero, suc, ◌+◌, ◌≤◌, ◌≡◌, refl, ap, Bool, true, false, not, ◌&&◌, List, [], ◌∷◌, ◌++◌,
  if◌then◌else◌, inl, inr, Bool-cases, arith, leb, In, In-append_left, In-append_right,
}
use byz_bank.Prelude.Int.{int_key}
use byz_bank.Prelude.Keys.{◌==◌}
use byz_bank.Prelude.Text.{bytes_key}
use byz_bank.Pbft.Messages.{Request, Reply, Verdict, committed, aborted, insufficient}

-- Equality of the result texts.
abbrev same_verdict : Verdict → Verdict → Bool
same_verdict committed committed = true
same_verdict aborted aborted = true
same_verdict insufficient insufficient = true
same_verdict _ _ = false

-- The test of `MatchingCount`. A reply does not name the replica that sent it.
unfoldable pub matches : Request → Verdict → Reply → Bool
matches r result p =
    (p.client_id == r.client_id)
    && (p.ts == r.ts)
    && (p.x == r.x)
    && (p.y == r.y)
    && (p.amt == r.amt)
    && same_verdict p.result result

-- `ReplyCollector` is the list of the replies; `Record` appends one.
unfoldable pub record_reply : Reply → List Reply → List Reply
record_reply p replies = replies ++ (p ∷ [])

unfoldable pub matching_count : Request → Verdict → List Reply → ℕ
unfolding matches
matching_count r result [] = 0
matching_count r result (p ∷ ps) =
    let rest = matching_count r result ps in if matches r result p then suc rest else rest

-- What a wait returns, and whether without an error.
abbrev pub Waited : Type 0
Waited = ℕ × Bool

-- `WaitForQuorum`: the replies that the rounds before the deadline meet, and those after it.
unfoldable pub wait_for_quorum : Request → Verdict → ℕ → List (List Reply) → List Reply → Waited
unfolding matching_count
wait_for_quorum r result quorum [] last = (matching_count r result last, false)
wait_for_quorum r result quorum (now ∷ later) last =
    let n = matching_count r result now in
    let rest = wait_for_quorum r result quorum later last in
    if leb quorum n then (n, true) else rest

-- `SubmitToAll` over the calls that succeed or fail: whether there is no error.
unfoldable pub submit_to_all : List Bool → Bool
submit_to_all [] = true
submit_to_all (sent ∷ rest) = sent && submit_to_all rest

-- `SubmitWithRetry`: whether the call of the primary succeeds, what the first wait meets, the replies at its
-- end, which of the calls of all replicas succeed, and what the second wait meets.
unfoldable pub submit_with_retry :
    Request
    → ℕ
    → Bool
    → List (List Reply)
    → List Reply
    → List Bool
    → List (List Reply)
    → List Reply
    → Waited
unfolding wait_for_quorum submit_to_all
submit_with_retry r quorum sent first between all second last =
    let (n, done) = wait_for_quorum r committed quorum first between in
    if not sent
    then (0, false)
    else if done
    then (n, true)
    else if not (submit_to_all all)
    then (matching_count r committed between, false)
    else wait_for_quorum r committed quorum second last

-- A wait that succeeds met a quorum of matching replies.
wait_for_quorum_sound :
    (r : Request) (result : Verdict) (quorum n : ℕ) (readings : List (List Reply))
    (last : List Reply)
    → wait_for_quorum r result quorum readings last ≡ (n, true)
    → (replies : List Reply) × In replies readings
      × (matching_count r result replies ≡ n)
      × (quorum ≤ n)
unfolding wait_for_quorum
wait_for_quorum_sound r result quorum n [] last h = absurd (cc (ap (λ (w : Waited). w.1) h))
wait_for_quorum_sound r result quorum n (now ∷ later) last h =
    elim (Bool-cases (leb quorum (matching_count r result now))) [
      | inl enough ↦
          let is : matching_count r result now ≡ n = ap (λ (w : Waited). w.0) (rw enough at h) in
          (now, inl refl, is, ground arith)
      | inr few ↦
          let (replies, met, is, le) =
            wait_for_quorum_sound r result quorum n later last (rw few at h) in
          (replies, inr met, is, le)
    ]

-- A reply that is recorded as often as the quorum asks, by one replica or by many, ends the wait.
unfoldable pub copies : ℕ → Reply → List Reply
copies zero p = []
copies (suc k) p = record_reply p (copies k p)

matching_count-record_reply :
    (r : Request) (result : Verdict) (p : Reply) (replies : List Reply)
    → matching_count r result (record_reply p replies)
      ≡ matching_count r result replies + (if matches r result p then 1 else 0)
unfolding matching_count record_reply
matching_count-record_reply r result p [] = ground arith
matching_count-record_reply r result p (q ∷ qs) =
    ground (arith, matching_count-record_reply r result p qs)

matching_count-copies :
    (r : Request) (result : Verdict) (p : Reply) (k : ℕ)
    → matches r result p ≡ true
    → matching_count r result (copies k p) ≡ k
unfolding copies matching_count
matching_count-copies r result p zero h = refl
matching_count-copies r result p (suc k) h =
    ground (
      arith,
      matching_count-record_reply r result p (copies k p),
      matching_count-copies r result p k,
    )

-- One matching reply, recorded as often as the quorum asks, ends the wait with success: replies are not
-- counted by the replica that sent them, so one replica can make up the quorum alone.
pub wait_for_quorum-copies :
    (r : Request) (result : Verdict) (p : Reply) (quorum : ℕ) (last : List Reply)
    → matches r result p ≡ true
    → wait_for_quorum r result quorum (copies quorum p ∷ []) last ≡ (quorum, true)
unfolding wait_for_quorum
wait_for_quorum-copies r result p quorum last h =
    let is = matching_count-copies r result p quorum h in
    let enough : leb quorum quorum ≡ true = ground arith in rw (is, enough) refl

-- A client that returns without an error met a quorum of replies that say that its request is committed, in
-- one of its two waits.
pub submit_with_retry_sound :
    (r : Request) (quorum n : ℕ) (sent : Bool) (first : List (List Reply)) (between : List Reply)
    (all : List Bool) (second : List (List Reply)) (last : List Reply)
    → submit_with_retry r quorum sent first between all second last ≡ (n, true)
    → (replies : List Reply) × In replies (first ++ second)
      × (matching_count r committed replies ≡ n)
      × (quorum ≤ n)
unfolding submit_with_retry
submit_with_retry_sound r quorum n false first between all second last h =
    absurd (cc (ap (λ (w : Waited). w.1) h))
submit_with_retry_sound r quorum n true first between all second last h =
    elim (Bool-cases (wait_for_quorum r committed quorum first between).1) [
      | inl early ↦
          let is : wait_for_quorum r committed quorum first between ≡ (n, true) =
            cc (rw early at h, early) in
          let (replies, met, count, le) =
            wait_for_quorum_sound r committed quorum n first between is in
          (replies, In-append_left replies first second met, count, le)
      | inr late ↦ elim (Bool-cases (submit_to_all all)) [
        | inr failed ↦ absurd (cc (ap (λ (w : Waited). w.1) (rw (late, failed) at h)))
        | inl told ↦
            let (replies, met, count, le) =
              wait_for_quorum_sound r committed quorum n second last (rw (late, told) at h) in
            (replies, In-append_right replies first second met, count, le)
      ]
    ]
