-- ===== src/Pbft/Signing.antt =====
-- The texts that the replicas of internal/pbft/messages.go sign, `phaseSigningBytes`: what a signature
-- over one of them says.
use byz_bank.Prelude.{ℕ, suc, ◌/◌, ◌%◌, ◌≡◌, ◌+◌, length, refl, ◌≢◌, [], ◌∷◌, ◌++◌, All, arith}
use byz_bank.Prelude.Int.{ℤ, pos, negsuc}
use byz_bank.Prelude.Text.{Bytes, itoa, itoa-injective, print_nat, print_nat-All, IsDigit}
use byz_bank.Store.Bbolt.{IsKey, is_key, is_key-IsKey}
use byz_bank.Pbft.Crypto.{Crypto}
use byz_bank.Pbft.Messages.{
  Request, txn_id, digest_of, digest_text, client_req, SignedPhase, prepare_phase, commit_phase,
  phase_text, phase_signing_bytes, piped, hex, hex_digit,
}

hex_digit-injective : (m n : ℕ) → hex_digit m ≡ hex_digit n → m ≡ n
unfolding hex_digit
hex_digit-injective m n h = ground arith

byte_parts : (a b : ℕ) → a / 16 ≡ b / 16 → a % 16 ≡ b % 16 → a ≡ b
byte_parts a b h k = omega arith

hex-injective : (d e : Bytes) → hex d ≡ hex e → d ≡ e
unfolding hex
hex-injective [] [] h = refl
hex-injective [] (b ∷ e) h = cc
hex-injective (a ∷ d) [] h = cc
hex-injective (a ∷ d) (b ∷ e) h =
    let high : hex_digit (a / 16) ≡ hex_digit (b / 16) = cc in
    let low : hex_digit (a % 16) ≡ hex_digit (b % 16) = cc in
    let rest : hex d ≡ hex e = cc in
    let same = byte_parts a b (hex_digit-injective _ _ high) (hex_digit-injective _ _ low) in
    cc (same, hex-injective d e rest)

abbrev pub IsBarFree : Bytes → Type 0
IsBarFree b = All (λ k. k ≢ b'|') b

-- A text before the first bar is settled by the whole.
pub bar_split :
    (a b r t : Bytes)
    → IsBarFree a
    → IsBarFree b
    → a ++ (b'|' ∷ r) ≡ b ++ (b'|' ∷ t)
    → (a ≡ b) × (r ≡ t)
bar_split [] [] r t ha hb h = (refl, cc)
bar_split [] (k ∷ b) r t ha hb h = absurd (hb.0 cc)
bar_split (j ∷ a) [] r t ha hb h = absurd (ha.0 cc)
bar_split (j ∷ a) (k ∷ b) r t ha hb h =
    let tail : a ++ (b'|' ∷ r) ≡ b ++ (b'|' ∷ t) = cc in
    let (same, rest) = bar_split a b r t ha.1 hb.1 tail in (cc, rest)

digits-IsBarFree : (b : Bytes) → All IsDigit b → IsBarFree b
digits-IsBarFree [] h = tt
digits-IsBarFree (k ∷ b) h = (ground arith, digits-IsBarFree b h.1)

pub itoa-IsBarFree : (z : ℤ) → IsBarFree (itoa z)
unfolding itoa
itoa-IsBarFree (pos n) = digits-IsBarFree (print_nat n) (print_nat-All n)
itoa-IsBarFree (negsuc n) =
    (ground arith, digits-IsBarFree (print_nat (suc n)) (print_nat-All (suc n)))

phase_text-IsBarFree : (p : SignedPhase) → IsBarFree (phase_text p)
unfolding phase_text
phase_text-IsBarFree prepare_phase = ground arith
phase_text-IsBarFree commit_phase = ground arith

phase_text-injective : (p q : SignedPhase) → phase_text p ≡ phase_text q → p ≡ q
unfolding phase_text
phase_text-injective prepare_phase prepare_phase h = refl
phase_text-injective prepare_phase commit_phase h = cc
phase_text-injective commit_phase prepare_phase h = cc
phase_text-injective commit_phase commit_phase h = refl

-- The signed text settles the phase, the sequence number, the view and the digest: a vote is good for
-- no other phase and no other slot.
pub phase_signing_bytes-injective :
    (p q : SignedPhase) (s t u v : ℤ) (d e : Bytes)
    → phase_signing_bytes p s u d ≡ phase_signing_bytes q t v e
    → (p ≡ q) × (s ≡ t) × (u ≡ v) × (d ≡ e)
unfolding phase_signing_bytes piped
phase_signing_bytes-injective p q s t u v d e h =
    let (hp, h₁) =
      bar_split (phase_text p) (phase_text q) _ _ (phase_text-IsBarFree p) (phase_text-IsBarFree q)
        h in
    let (hs, h₂) = bar_split (itoa s) (itoa t) _ _ (itoa-IsBarFree s) (itoa-IsBarFree t) h₁ in
    let (hv, h₃) = bar_split (itoa u) (itoa v) _ _ (itoa-IsBarFree u) (itoa-IsBarFree v) h₂ in
    (
      phase_text-injective p q hp,
      itoa-injective s t hs,
      itoa-injective u v hv,
      hex-injective d e h₃,
    )

length-hex : (d : Bytes) → length (hex d) ≡ length d + length d
unfolding hex
length-hex [] = refl
length-hex (b ∷ d) = omega (arith, length-hex d)

-- A transaction is a key of the database: the 64 characters of a hash.
pub txn_id-IsKey : (c : Crypto) (r : Request) → IsKey (txn_id c r)
unfolding txn_id digest_of is_key
txn_id-IsKey c r =
    let size : length (txn_id c r) ≡ 64 = omega (
      arith,
      length-hex (digest_of c (client_req r)),
      c.length-sha256 (digest_text (client_req r)),
    ) in
    is_key-IsKey (txn_id c r) (rw size refl)
