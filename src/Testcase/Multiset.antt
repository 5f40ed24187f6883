-- ===== src/Testcase/Multiset.antt =====
-- `multisetEqual` of internal/testcase/oracle.go tells whether two lists hold the same texts as often.
use byz_bank.Prelude.{
  ℕ, ◌+◌, ◌≤◌, ◌<◌, ◌≡◌, refl, sym, ap, ◌∙◌, ◌↔◌, ◌⊎◌, inl, inr, true, List, [], ◌∷◌, none, some,
  arith, Bool-cases, Option-cases, if◌then◌else◌, length,
}
use byz_bank.Prelude.Keys.{◌==◌, GoMap, get, has, put, get-put, nat_key, beq_refl}
use byz_bank.Prelude.Text.{Bytes, bytes_key}
use byz_bank.Testcase.Oracle.{or_zero, tally, all_match, multiset_equal}
use byz_bank.Prelude.MapKeys.{
  found_behind, DistinctKeys, Within, has_of_get, has_of_none, put-DistinctKeys, length-Within,
}

-- How often a text stands in a list.
unfoldable pub count : Bytes → List Bytes → ℕ
count s [] = 0
count s (x ∷ xs) = (if x == s then 1 else 0) + count s xs

pub get-counted :
    (r s : Bytes) (m : GoMap Bytes ℕ) (xs : List Bytes)
    → or_zero (get s (put r (or_zero (get r m) + 1) m)) + count s xs
      ≡ or_zero (get s m) + count s (r ∷ xs)
unfolding count
get-counted r s m xs = elim (Bool-cases (r == s)) [
  | inl e ↦
      let same : r ≡ s = (bytes_key.beq_iff r s).0 e in
      rw (get-put r s (or_zero (get r m) + 1) m, e, ap (λ k. or_zero (get k m)) same) (omega arith)
  | inr e ↦ rw (get-put r s (or_zero (get r m) + 1) m, e) (omega arith)
]

get-tally :
    (s : Bytes) (xs : List Bytes) (m : GoMap Bytes ℕ)
    → or_zero (get s (tally xs m)) ≡ or_zero (get s m) + count s xs
unfolding tally count
get-tally s [] m = omega arith
get-tally s (x ∷ xs) m = get-tally s xs (put x (or_zero (get x m) + 1) m) ∙ get-counted x s m xs

tally-DistinctKeys :
    (xs : List Bytes) (m : GoMap Bytes ℕ) → DistinctKeys m → DistinctKeys (tally xs m)
unfolding tally
tally-DistinctKeys [] m d = d
tally-DistinctKeys (x ∷ xs) m d = tally-DistinctKeys xs _ (put-DistinctKeys x _ m d)

-- No count of the map is zero.
abbrev Counted : GoMap Bytes ℕ → Type 0
Counted m = (k : Bytes) (v : ℕ) → get k m ≡ some v → 0 < v

tally-Counted : (xs : List Bytes) (m : GoMap Bytes ℕ) → Counted m → Counted (tally xs m)
unfolding tally
tally-Counted [] m h = h
tally-Counted (x ∷ xs) m h = tally-Counted xs _ more
  where
    more : Counted (put x (or_zero (get x m) + 1) m)
    more k v found = elim (Bool-cases (x == k)) [
      | inl same ↦ let e = rw (get-put x k (or_zero (get x m) + 1) m, same) at found in ground arith
      | inr other ↦ h k v (rw (get-put x k (or_zero (get x m) + 1) m, other) at found)
    ]

all_match-get :
    (ca cb : GoMap Bytes ℕ) (k : Bytes) (v : ℕ)
    → all_match ca cb ≡ true
    → get k ca ≡ some v
    → or_zero (get k cb) ≡ v
unfolding all_match get
all_match-get [] cb k v h found = cc
all_match-get ((j, w) ∷ ca) cb k v h found =
    ground (arith, all_match-get ca cb k v, bytes_key.beq_iff j k)

all_match_of :
    (ca cb : GoMap Bytes ℕ)
    → DistinctKeys ca
    → ((k : Bytes) (v : ℕ) → get k ca ≡ some v → or_zero (get k cb) ≡ v)
    → all_match ca cb ≡ true
unfolding all_match get
all_match_of [] cb d h = refl
all_match_of ((j, w) ∷ ca) cb (n, d) h =
    let head : or_zero (get j cb) ≡ w = h j w (rw (beq_refl j) refl) in
    let same : (or_zero (get j cb) == w) ≡ true = (nat_key.beq_iff (or_zero (get j cb)) w).1 head in
    let later : all_match ca cb ≡ true =
      all_match_of ca cb d λ k u found. h k u (found_behind j k w u ca n found) in
    rw (same, later) refl

positive_has : (k : Bytes) (m : GoMap Bytes ℕ) → 0 < or_zero (get k m) → has k m ≡ true
positive_has k m h = elim (Option-cases (get k m)) [
  | inl e ↦ absurd (ground arith)
  | inr (v, e) ↦ has_of_get k m v e
]

tally-count : (s : Bytes) (xs : List Bytes) → or_zero (get s (tally xs [])) ≡ count s xs
unfolding get
tally-count s xs = omega (arith, get-tally s xs [])

tally-has : (s : Bytes) (xs : List Bytes) → 0 < count s xs → has s (tally xs []) ≡ true
tally-has s xs h = positive_has s (tally xs []) (omega (arith, tally-count s xs))

-- A key of the tally was counted.
tally-positive :
    (s : Bytes) (xs : List Bytes) (v : ℕ)
    → get s (tally xs []) ≡ some v
    → (count s xs ≡ v) × (0 < v)
unfolding get
tally-positive s xs v found =
    let e = get-tally s xs [] in
    let p = tally-Counted xs [] (λ k w bad. cc bad) s v found in (ground arith, p)

Within-of :
    (m m' : GoMap Bytes ℕ)
    → DistinctKeys m
    → ((k : Bytes) (v : ℕ) → get k m ≡ some v → has k m' ≡ true)
    → Within m m'
unfolding get
Within-of [] m' d h = tt
Within-of ((j, w) ∷ m) m' (n, d) h = (
  h j w (rw (beq_refl j) refl),
  Within-of m m' d (λ k u found. h k u (found_behind j k w u m n found)),
)

-- A text that only the second list holds makes the second tally longer.
tally-longer :
    (s : Bytes) (a b : List Bytes)
    → all_match (tally a []) (tally b []) ≡ true
    → get s (tally a []) ≡ none
    → 0 < count s b
    → length (tally a []) < length (tally b [])
tally-longer s a b match missing more =
    let ca = tally a [] in
    length-Within ((s, 0) ∷ ca) (tally b []) (has_of_none s ca missing, tally-DistinctKeys a [] tt)
      (
        tally-has s b more,
        Within-of ca (tally b []) (tally-DistinctKeys a [] tt) (λ k v found.
            let (_, some_of) = tally-positive k a v found in
            positive_has k (tally b [])
              (rw (all_match-get ca (tally b []) k v match found) some_of)),
      )

tally-Within :
    (a b : List Bytes)
    → ((s : Bytes) → count s a ≡ count s b)
    → length (tally a []) ≤ length (tally b [])
tally-Within a b h = length-Within (tally a []) (tally b []) (tally-DistinctKeys a [] tt) (
    Within-of (tally a []) (tally b []) (tally-DistinctKeys a [] tt) (λ k v found.
      let (e, some_of) = tally-positive k a v found in tally-has k b (omega (arith, h k))))

zero_or_pos : (n : ℕ) → (n ≡ 0) ⊎ (0 < n)
zero_or_pos n = ground arith

counts_same :
    (a b : List Bytes)
    → length (tally a []) ≡ length (tally b [])
    → all_match (tally a []) (tally b []) ≡ true
    → (s : Bytes) → count s a ≡ count s b
counts_same a b same match s =
    let mine = tally-count s a in
    let theirs = tally-count s b in
    elim (Option-cases (get s (tally a []))) [
      | inr (v, found) ↦
          let e = all_match-get (tally a []) (tally b []) s v match found in
          let is : count s a ≡ v = (tally-positive s a v found).0 in omega arith
      | inl missing ↦
          let none_of : count s a ≡ 0 = sym mine ∙ rw missing refl in
          elim (zero_or_pos (count s b)) [
            | inl none_there ↦ omega arith
            | inr more ↦ absurd (omega (arith, tally-longer s a b match missing more))
          ]
    ]

-- The two lists compare equal exactly when every text stands in both as often, in whatever order.
pub multiset_equal_iff :
    (a b : List Bytes) → (multiset_equal a b ≡ true) ↔ ((s : Bytes) → count s a ≡ count s b)
unfolding multiset_equal
multiset_equal_iff a b = (
  λ h. elim (Bool-cases (length (tally a []) == length (tally b []))) [
    | inl same ↦
        let e = (nat_key.beq_iff (length (tally a [])) (length (tally b []))).0 same in
        counts_same a b e (rw same at h)
    | inr differ ↦ cc (rw differ at h)
  ],
  λ h.
      let one = tally-Within a b h in
      let two = tally-Within b a (λ s. sym (h s)) in
      let e : length (tally a []) ≡ length (tally b []) = omega arith in
      let same = (nat_key.beq_iff (length (tally a [])) (length (tally b []))).1 e in
      let match : all_match (tally a []) (tally b []) ≡ true =
        all_match_of (tally a []) (tally b []) (tally-DistinctKeys a [] tt)
          λ k v found. tally-count k b ∙ sym (h k) ∙ (tally-positive k a v found).0 in
      rw (same, match) refl,
)
