-- ===== src/Pbft/Certificate/Build.antt =====
-- The certificate that a collector builds, `buildCertLocked` of internal/pbft/engine.go, passes
-- `verifyCert`.
use byz_bank.Prelude.{
  ℕ, zero, suc, ◌≤◌, ◌≡◌, refl, ◌∙◌, true, List, [], ◌∷◌, some, ltb, arith, length, All, Bool-cases,
  inl, inr,
}
use byz_bank.Prelude.Int.{ℤ}
use byz_bank.Prelude.Keys.{nat_key, GoMap}
use byz_bank.Prelude.Distinct.{contains, IsDistinct}
use byz_bank.Prelude.Text.{Bytes}
use byz_bank.Pbft.Crypto.{Crypto, KeyRing, ring_verify}
use byz_bank.Pbft.Messages.{SigEntry, CertificateMsg, SignedPhase, phase_signing_bytes}
use byz_bank.Pbft.Certificate.{sig_entries, exchange, sort_entries, build_cert, verify_cert}
use byz_bank.Pbft.Certificate.Sound.{signers, AllSigned, verify_cert_iff}

exchange-All :
    (P : SigEntry → Type 0) (a : SigEntry) (es : List SigEntry)
    → P a
    → All P es
    → P (exchange a es).0 × All P (exchange a es).1
unfolding exchange
exchange-All P a [] pa pes = (pa, tt)
exchange-All P a (b ∷ bs) pa pes = elim (Bool-cases (ltb b.server_id a.server_id)) [
  | inl swap ↦ let ih = exchange-All P b bs pes.0 pes.1 in rw swap (ih.0, (pa, ih.1))
  | inr keep ↦ let ih = exchange-All P a bs pa pes.1 in rw keep (ih.0, (pes.0, ih.1))
]

exchange-contains :
    (k : ℕ) (a : SigEntry) (es : List SigEntry)
    → contains k (signers ((exchange a es).0 ∷ (exchange a es).1)) ≡ contains k (signers (a ∷ es))
unfolding exchange contains
exchange-contains k a [] = refl
exchange-contains k a (b ∷ bs) = ground (arith, exchange-contains k a bs, exchange-contains k b bs)

exchange-IsDistinct :
    (a : SigEntry) (es : List SigEntry)
    → IsDistinct (signers (a ∷ es))
    → IsDistinct (signers ((exchange a es).0 ∷ (exchange a es).1))
unfolding exchange contains
exchange-IsDistinct a [] d = d
exchange-IsDistinct a (b ∷ bs) d = ground (
  arith,
  exchange-IsDistinct a bs,
  exchange-IsDistinct b bs,
  exchange-contains a.server_id b bs,
  exchange-contains b.server_id a bs,
)

exchange-length : (a : SigEntry) (es : List SigEntry) → length (exchange a es).1 ≡ length es
unfolding exchange
exchange-length a [] = refl
exchange-length a (b ∷ bs) = ground (arith, exchange-length a bs, exchange-length b bs)

sort_entries-All :
    (P : SigEntry → Type 0) (n : ℕ) (es : List SigEntry) → All P es → All P (sort_entries n es)
unfolding sort_entries
sort_entries-All P zero es h = h
sort_entries-All P (suc n) [] h = tt
sort_entries-All P (suc n) (a ∷ es) h =
    let ex = exchange-All P a es h.0 h.1 in (ex.0, sort_entries-All P n (exchange a es).1 ex.1)

sort_entries-contains :
    (k n : ℕ) (es : List SigEntry)
    → contains k (signers (sort_entries n es)) ≡ contains k (signers es)
unfolding sort_entries contains
sort_entries-contains k zero es = refl
sort_entries-contains k (suc n) [] = refl
sort_entries-contains k (suc n) (a ∷ es) =
    ground (arith, exchange-contains k a es, sort_entries-contains k n (exchange a es).1)

sort_entries-IsDistinct :
    (n : ℕ) (es : List SigEntry)
    → IsDistinct (signers es)
    → IsDistinct (signers (sort_entries n es))
unfolding sort_entries
sort_entries-IsDistinct zero es d = d
sort_entries-IsDistinct (suc n) [] d = d
sort_entries-IsDistinct (suc n) (a ∷ es) d =
    let ex = exchange-IsDistinct a es d in
    (
      sort_entries-contains (exchange a es).0.server_id n (exchange a es).1 ∙ ex.0,
      sort_entries-IsDistinct n (exchange a es).1 ex.1,
    )

sort_entries-length : (n : ℕ) (es : List SigEntry) → length (sort_entries n es) ≡ length es
unfolding sort_entries
sort_entries-length zero es = refl
sort_entries-length (suc n) [] = refl
sort_entries-length (suc n) (a ∷ es) =
    omega (arith, exchange-length a es, sort_entries-length n (exchange a es).1)

-- Each entry is at most every later one.
abbrev pub IsSorted : List SigEntry → Type 0
IsSorted [] = Unit {0}
IsSorted (e ∷ es) = All (λ d. e.server_id ≤ d.server_id) es × IsSorted es

exchange-least :
    (m : ℕ) (a : SigEntry) (es : List SigEntry)
    → (exchange a es).0.server_id ≡ m
    → (m ≤ a.server_id) × All (λ d. m ≤ d.server_id) (exchange a es).1
unfolding exchange
exchange-least m a [] e = (omega arith, tt)
exchange-least m a (b ∷ bs) e = elim (Bool-cases (ltb b.server_id a.server_id)) [
  | inl swap ↦
      let ih = exchange-least m b bs (rw swap at e) in
      rw swap (ground (arith, ih.0), (ground (arith, ih.0), ih.1))
  | inr keep ↦
      let ih = exchange-least m a bs (rw keep at e) in rw keep (ih.0, (ground (arith, ih.0), ih.1))
]

sort_entries-IsSorted : (n : ℕ) (es : List SigEntry) → length es ≤ n → IsSorted (sort_entries n es)
unfolding sort_entries
sort_entries-IsSorted zero [] h = tt
sort_entries-IsSorted zero (e ∷ es) h = elim h [ ]
sort_entries-IsSorted (suc n) [] h = tt
sort_entries-IsSorted (suc n) (a ∷ es) h = (
  sort_entries-All _ n (exchange a es).1 (exchange-least _ a es refl).1,
  sort_entries-IsSorted n (exchange a es).1 (omega (arith, exchange-length a es)),
)

-- The keys of a map of signatures.
abbrev pub map_ids : GoMap ℕ Bytes → List ℕ
map_ids [] = []
map_ids ((id, sig) ∷ m) = id ∷ map_ids m

signers-sig_entries : (m : GoMap ℕ Bytes) → signers (sig_entries m) ≡ map_ids m
unfolding sig_entries
signers-sig_entries [] = refl
signers-sig_entries ((id, sig) ∷ m) = rw (signers-sig_entries m)

length-sig_entries : (m : GoMap ℕ Bytes) → length (sig_entries m) ≡ length m
unfolding sig_entries
length-sig_entries [] = refl
length-sig_entries (e ∷ m) = omega (arith, length-sig_entries m)

module _ (c : Crypto) (ring : KeyRing) where
  -- What a collector keeps of its map: one entry for each server, whose signature is valid.
  pub record IsCollected (bytes : Bytes) (m : GoMap ℕ Bytes) : Type 0 where
    pub distinct : IsDistinct (map_ids m)
    pub signed : All (λ e. ring_verify c ring e.0 bytes e.1 ≡ true) m

  AllSigned-sig_entries :
      (bytes : Bytes) (m : GoMap ℕ Bytes)
      → All (λ e. ring_verify c ring e.0 bytes e.1 ≡ true) m
      → AllSigned c ring bytes (sig_entries m)
  unfolding sig_entries
  AllSigned-sig_entries bytes [] h = tt
  AllSigned-sig_entries bytes ((id, sig) ∷ m) h = (h.0, AllSigned-sig_entries bytes m h.1)

  -- From collected signatures that reach the quorum a certificate is built, with the signers in
  -- order, and every replica with this key ring accepts it.
  pub verify_cert-build_cert :
      (m : GoMap ℕ Bytes) (phase : SignedPhase) (quorum : ℕ) (seq view : ℤ) (digest : Bytes)
      → IsCollected (phase_signing_bytes phase seq view digest) m
      → quorum ≤ length m
      → (cert : CertificateMsg) × (build_cert m quorum seq view digest ≡ some cert)
        × (verify_cert c ring cert phase quorum ≡ true)
        × IsSorted cert.sigs
  unfolding build_cert
  verify_cert-build_cert m phase quorum seq view digest ok enough =
      let es = sig_entries m in
      let sorted = sort_entries (length es) es in
      let size = sort_entries-length (length es) es ∙ length-sig_entries m in
      let cert : CertificateMsg = record {
        seq = seq;
        view = view;
        digest = digest;
        sigs = sorted;
      } in
      (
        cert,
        ground arith,
        (verify_cert_iff c ring cert phase quorum).1 (
          omega arith,
          sort_entries-All _ (length es) es (AllSigned-sig_entries _ m ok.signed),
          sort_entries-IsDistinct (length es) es (rw (signers-sig_entries m) ok.distinct),
        ),
        sort_entries-IsSorted (length es) es (omega arith),
      )
