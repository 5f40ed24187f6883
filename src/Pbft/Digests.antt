-- ===== src/Pbft/Digests.antt =====
-- The text that `Digest` of internal/pbft/messages.go hashes: which requests share it.
use byz_bank.Prelude.{
  ℕ, ◌≤◌, ◌⊎◌, inl, inr, ◌≡◌, refl, ap, sym, ◌∙◌, List, [], ◌∷◌, ◌++◌, if◌then◌else◌, All, arith,
}
use mathlib.Core.List.{append_assoc}
use byz_bank.Prelude.Int.{ℤ, pos, negsuc}
use byz_bank.Prelude.Keys.{◌==◌}
use byz_bank.Prelude.Text.{
  Bytes, bytes_key, data_eq, itoa, itoa-injective, print_nat, print_nat-All, IsDigit,
}
use byz_bank.Pbft.Messages.{
  Op, Request, unset, intra, coord_prepare, part_prepare_commit, part_prepare_abort, coord_commit,
  coord_abort, part_commit, part_abort, other, op_text, or_intra, piped, digest_text,
}
use byz_bank.Pbft.Signing.{IsBarFree, bar_split, itoa-IsBarFree}

-- The tags that the code knows.
abbrev pub IsKnownOp : Op → Type 0
IsKnownOp (other b) = ⊥
IsKnownOp op = Unit {0}

op_of : Bytes → Op
op_of b =
    if b == op_text coord_prepare
    then coord_prepare
    else if b == op_text part_prepare_commit
    then part_prepare_commit
    else if b == op_text part_prepare_abort
    then part_prepare_abort
    else if b == op_text coord_commit
    then coord_commit
    else if b == op_text coord_abort
    then coord_abort
    else if b == op_text part_commit
    then part_commit
    else if b == op_text part_abort
    then part_abort
    else intra

op_of-op_text : (op : Op) → IsKnownOp op → op_of (op_text (or_intra op)) ≡ or_intra op
unfolding op_of op_text or_intra data_eq
op_of-op_text unset k = refl
op_of-op_text intra k = refl
op_of-op_text coord_prepare k = refl
op_of-op_text part_prepare_commit k = refl
op_of-op_text part_prepare_abort k = refl
op_of-op_text coord_commit k = refl
op_of-op_text coord_abort k = refl
op_of-op_text part_commit k = refl
op_of-op_text part_abort k = refl
op_of-op_text (other b) k = absurd k

abbrev numbers : Request → List Bytes
numbers r = itoa r.ts ∷ itoa r.x ∷ itoa r.y ∷ itoa r.amt ∷ []

shape : Op → Bytes → List Bytes → Bytes
shape op client ns = elim (or_intra op) [
  | intra ↦ piped client ns
  | op' ↦ piped client (op_text op' ∷ ns)
]

-- A tag between bars, which is no number.
abbrev IsTag : Bytes → Type 0
IsTag b = IsBarFree b × (k : ℕ) × (rest : Bytes) × (b ≡ k ∷ rest) × (58 ≤ k)

shape_cases :
    (op : Op) (client : Bytes) (ns : List Bytes)
    → IsKnownOp op
    → ((or_intra op ≡ intra) × (shape op client ns ≡ piped client ns))
      ⊎ (IsTag (op_text (or_intra op))
          × (shape op client ns ≡ piped client (op_text (or_intra op) ∷ ns)))
unfolding shape or_intra op_text
shape_cases unset client ns k = inl (refl, refl)
shape_cases intra client ns k = inl (refl, refl)
shape_cases coord_prepare client ns k = inr ((ground arith, _, _, refl, ground arith), refl)
shape_cases part_prepare_commit client ns k = inr ((ground arith, _, _, refl, ground arith), refl)
shape_cases part_prepare_abort client ns k = inr ((ground arith, _, _, refl, ground arith), refl)
shape_cases coord_commit client ns k = inr ((ground arith, _, _, refl, ground arith), refl)
shape_cases coord_abort client ns k = inr ((ground arith, _, _, refl, ground arith), refl)
shape_cases part_commit client ns k = inr ((ground arith, _, _, refl, ground arith), refl)
shape_cases part_abort client ns k = inr ((ground arith, _, _, refl, ground arith), refl)
shape_cases (other b) client ns k = absurd k

digits_not_tag : (ds : Bytes) (k : ℕ) (rest : Bytes) → All IsDigit ds → ds ≡ k ∷ rest → 58 ≤ k → ⊥
digits_not_tag [] k rest h e le = cc
digits_not_tag (d ∷ ds) k rest (low, _) e le = let same : d ≡ k = cc in absurd (omega arith)

number_not_tag : (z : ℤ) (b : Bytes) → IsTag b → itoa z ≡ b → ⊥
unfolding itoa
number_not_tag (pos n) b (_, k, rest, is, le) e =
    digits_not_tag (print_nat n) k rest (print_nat-All n) (e ∙ is) le
number_not_tag (negsuc n) b (_, k, rest, is, le) e =
    let same : b'-' ≡ k = cc (e ∙ is) in absurd (omega arith)

abbrev SameNumbers : Request → Request → Type 0
SameNumbers r q = (r.ts ≡ q.ts) × (r.x ≡ q.x) × (r.y ≡ q.y) × (r.amt ≡ q.amt)

numbers-injective :
    (r q : Request)
    → piped (itoa r.ts) (itoa r.x ∷ itoa r.y ∷ itoa r.amt ∷ [])
      ≡ piped (itoa q.ts) (itoa q.x ∷ itoa q.y ∷ itoa q.amt ∷ [])
    → SameNumbers r q
unfolding piped
numbers-injective r q h =
    let (a, h₁) =
      bar_split (itoa r.ts) (itoa q.ts) _ _ (itoa-IsBarFree r.ts) (itoa-IsBarFree q.ts) h in
    let (b, h₂) =
      bar_split (itoa r.x) (itoa q.x) _ _ (itoa-IsBarFree r.x) (itoa-IsBarFree q.x) h₁ in
    let (d, h₃) =
      bar_split (itoa r.y) (itoa q.y) _ _ (itoa-IsBarFree r.y) (itoa-IsBarFree q.y) h₂ in
    (itoa-injective _ _ a, itoa-injective _ _ b, itoa-injective _ _ d, itoa-injective _ _ h₃)

-- Two requests with the same hashed text are the same but for an unset tag, which is that of an intra-shard
-- request: as long as no client id holds a bar and the tags are known ones.
pub digest_text-injective :
    (r q : Request)
    → IsBarFree r.client_id
    → IsBarFree q.client_id
    → IsKnownOp r.op
    → IsKnownOp q.op
    → digest_text r ≡ digest_text q
    → (r.client_id ≡ q.client_id)
      × (or_intra r.op ≡ or_intra q.op)
      × (r.ts ≡ q.ts)
      × (r.x ≡ q.x)
      × (r.y ≡ q.y)
      × (r.amt ≡ q.amt)
unfolding digest_text shape piped
digest_text-injective r q fr fq kr kq h = elim (shape_cases r.op r.client_id (numbers r) kr) [
  | inl (ir, er) ↦ elim (shape_cases q.op q.client_id (numbers q) kq) [
    | inl (iq, eq) ↦
        let (same, rest) = bar_split r.client_id q.client_id _ _ fr fq (sym er ∙ h ∙ eq) in
        let (a, b, d, e) = numbers-injective r q rest in (same, ir ∙ sym iq, a, b, d, e)
    | inr (tq, eq) ↦
        let (same, rest) = bar_split r.client_id q.client_id _ _ fr fq (sym er ∙ h ∙ eq) in
        let (clash, _) =
          bar_split (itoa r.ts) (op_text (or_intra q.op)) _ _ (itoa-IsBarFree r.ts) tq.0 rest in
        absurd (number_not_tag r.ts _ tq clash)
  ]
  | inr (tagged, er) ↦ elim (shape_cases q.op q.client_id (numbers q) kq) [
    | inl (iq, eq) ↦
        let (same, rest) = bar_split r.client_id q.client_id _ _ fr fq (sym er ∙ h ∙ eq) in
        let (clash, _) =
          bar_split (op_text (or_intra r.op)) (itoa q.ts) _ _ tagged.0 (itoa-IsBarFree q.ts) rest in
        absurd (number_not_tag q.ts _ tagged (sym clash))
    | inr (tq, eq) ↦
        let (same, rest) = bar_split r.client_id q.client_id _ _ fr fq (sym er ∙ h ∙ eq) in
        let (tags, after) =
          bar_split (op_text (or_intra r.op)) (op_text (or_intra q.op)) _ _ tagged.0 tq.0 rest in
        let (a, b, d, e) = numbers-injective r q after in
        (same, sym (op_of-op_text r.op kr) ∙ ap op_of tags ∙ op_of-op_text q.op kq, a, b, d, e)
  ]
]

-- A client id may hold a bar: the intra-shard request of the client "A|coord_prepare" has the hashed text of
-- the coordinator's prepare for client "A", whatever "A" is.
pub digest_text-collides :
    (r : Request)
    → digest_text
        (record r { client_id = r.client_id ++ (b'|' ∷ op_text coord_prepare); op = intra })
      ≡ digest_text (record r { op = coord_prepare })
unfolding digest_text piped or_intra
digest_text-collides r = append_assoc r.client_id (b'|' ∷ op_text coord_prepare) _
