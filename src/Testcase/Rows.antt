-- ===== src/Testcase/Rows.antt =====
-- Every transaction of the rows of a test file ends up in a set, in order, internal/testcase/parse.go.
use byz_bank.Prelude.{
  ◌≡◌, ◌≤◌, arith, refl, sym, ap, ◌∙◌, List, [], ◌∷◌, ◌++◌, none, some, inl, inr, Bool-cases,
  Option-cases, length, ltb,
}
use mathlib.Core.List.{append_assoc, append-nil}
use byz_bank.Prelude.Int.{ℤ}
use byz_bank.Prelude.Keys.{◌==◌}
use byz_bank.Prelude.Text.{Bytes, bytes_key, atoi}
use byz_bank.Testcase.{Transaction, TestSet}
use byz_bank.Testcase.Parse.{parse_transaction}
use byz_bank.Testcase.Sets.{
  trim, servers_at, flush, Progress, begin_set, add_transaction, read_rows, drop_header, parse_file,
}

-- The transactions of the sets, one set after the other.
unfoldable pub all_txns : List TestSet → List Transaction
all_txns [] = []
all_txns (set ∷ sets) = set.txns ++ all_txns sets

abbrev progress_txns : Progress → List Transaction
progress_txns (sets, cur) = all_txns (flush cur sets)

-- The rows that hold a transaction, with the texts of their second fields.
unfoldable pub transaction_fields : List (List Bytes) → List Bytes
transaction_fields [] = []
transaction_fields ([] ∷ rows) = transaction_fields rows
transaction_fields ((first ∷ []) ∷ rows) = transaction_fields rows
transaction_fields ((first ∷ field ∷ rest) ∷ rows) = field ∷ transaction_fields rows

-- The texts read as these transactions.
abbrev pub ReadAs : List Bytes → List Transaction → Type 0
ReadAs [] [] = Unit {0}
ReadAs [] (t ∷ ts) = ⊥
ReadAs (s ∷ ss) [] = ⊥
ReadAs (s ∷ ss) (t ∷ ts) = (parse_transaction s ≡ some t) × ReadAs ss ts

all_txns-append : (xs ys : List TestSet) → all_txns (xs ++ ys) ≡ all_txns xs ++ all_txns ys
unfolding all_txns
all_txns-append [] ys = refl
all_txns-append (x ∷ xs) ys =
    rw (all_txns-append xs ys) (sym (append_assoc x.txns (all_txns xs) (all_txns ys)))

-- A set that begins changes no transaction read so far.
begin_set-txns :
    (first : Bytes) (rest : List Bytes) (p p' : Progress)
    → begin_set first rest p ≡ some p'
    → progress_txns p' ≡ progress_txns p
unfolding begin_set all_txns
begin_set-txns first rest (sets, cur) p' h = elim (Bool-cases (trim first == [])) [
  | inl blank ↦ let same : (sets, cur) ≡ p' = cc (rw blank at h) in rw (← same) refl
  | inr named ↦ elim (Option-cases (atoi (trim first))) [
    | inl bad ↦ cc (rw (named, bad) at h)
    | inr (number, good) ↦
        let next : TestSet = record {
          number = number;
          txns = [];
          live = servers_at 0 rest;
          contact = servers_at 1 rest;
          byzantine = servers_at 2 rest;
        } in
        let same : (flush cur sets, some next) ≡ p' = cc (rw (named, good) at h) in
        rw (← same)
          (all_txns-append (flush cur sets) (next ∷ []) ∙ append-nil (all_txns (flush cur sets)))
  ]
]

add_transaction-txns :
    (field : Bytes) (p p' : Progress)
    → add_transaction field p ≡ some p'
    → (t : Transaction) × (parse_transaction field ≡ some t)
      × (progress_txns p' ≡ progress_txns p ++ (t ∷ []))
unfolding add_transaction all_txns
add_transaction-txns field (sets, none) p' h = cc h
add_transaction-txns field (sets, some cur) p' h = elim (Option-cases (parse_transaction field)) [
  | inl bad ↦ cc (rw bad at h)
  | inr (t, good) ↦
      let cur' : TestSet = record cur { txns = cur.txns ++ (t ∷ []) } in
      let same : (sets, some cur') ≡ p' = cc (rw good at h) in
      (
        t,
        good,
        rw (← same) (
            all_txns-append sets (cur' ∷ [])
            ∙ simp (append-nil, append_assoc, all_txns-append) refl),
      )
]

read_rows-txns :
    (rows : List (List Bytes)) (p p' : Progress)
    → read_rows rows p ≡ some p'
    → (ts : List Transaction) × ReadAs (transaction_fields rows) ts
      × (progress_txns p' ≡ progress_txns p ++ ts)
unfolding read_rows transaction_fields
read_rows-txns [] p p' h =
    ([], tt, let same : p ≡ p' = cc h in rw (← same) (sym (append-nil (progress_txns p))))
read_rows-txns ([] ∷ rows) p p' h = read_rows-txns rows p p' h
read_rows-txns ((first ∷ []) ∷ rows) p p' h = read_rows-txns rows p p' h
read_rows-txns ((first ∷ field ∷ rest) ∷ rows) p p' h =
    elim (Option-cases (begin_set first rest p)) [
      | inl bad ↦ cc (rw bad at h)
      | inr (begun, is) ↦ elim (Option-cases (add_transaction field begun)) [
        | inl bad ↦ cc (rw (is, bad) at h)
        | inr (added, has) ↦
            let (t, reads, one) = add_transaction-txns field begun added has in
            let (ts, more, all) = read_rows-txns rows added p' (rw (is, has) at h) in
            (
              t ∷ ts,
              (reads, more),
              all
                  ∙ ap (λ a. a ++ ts)
                      (one ∙ ap (λ a. a ++ (t ∷ [])) (begin_set-txns first rest p begun is))
                  ∙ append_assoc (progress_txns p) (t ∷ []) ts,
            )
      ]
    ]

-- The rows of a file, header and data: at most one row is the header, and then its first field is no
-- number; the first data row of a file without one has a number there, or no field at all.
abbrev pub IsHeaded : List (List Bytes) → List (List Bytes) → Type 0
IsHeaded [] [] = Unit
IsHeaded [] ([] ∷ data_rows) = Unit
IsHeaded [] ((first ∷ rest) ∷ data_rows) = (number : ℤ) × (atoi (trim first) ≡ some number)
IsHeaded ([] ∷ header) data_rows = ⊥
IsHeaded ((first ∷ rest) ∷ []) data_rows = atoi (trim first) ≡ none
IsHeaded ((first ∷ rest) ∷ next ∷ header) data_rows = ⊥

abbrev pub Split : List (List Bytes) → List (List Bytes) → Type 0
Split rows data_rows =
    (header : List (List Bytes)) × (rows ≡ header ++ data_rows) × IsHeaded header data_rows

drop_header-Split : (rows : List (List Bytes)) → Split rows (drop_header rows)
unfolding drop_header
drop_header-Split [] = ([], refl, tt)
drop_header-Split ([] ∷ rows) = ([], refl, tt)
drop_header-Split ((first ∷ rest) ∷ rows) = elim (Option-cases (atoi (trim first))) [
  | inl named ↦ rw (drop_header, named) ((first ∷ rest) ∷ [], refl, named)
  | inr (number, is) ↦ rw (drop_header, is) ([], refl, (number, is))
]

-- A file that is read has at least two rows, and its sets hold exactly the transactions that its data
-- rows list, in their order: a row with a field behind the first is never dropped. The data rows are
-- all rows but a first one whose first field is no number.
pub parse_file-txns :
    (rows : List (List Bytes)) (sets : List TestSet)
    → parse_file rows ≡ some sets
    → (2 ≤ length rows)
      × (data_rows : List (List Bytes)) × Split rows data_rows
      × ReadAs (transaction_fields data_rows) (all_txns sets)
unfolding parse_file all_txns
parse_file-txns rows sets h = elim (Bool-cases (ltb (length rows) 2)) [
  | inl short ↦ cc (rw short at h)
  | inr long ↦ elim (Option-cases (read_rows (drop_header rows) ([], none))) [
    | inl bad ↦ cc (rw (long, bad) at h)
    | inr ((done, cur), is) ↦
        let (ts, reads, all) = read_rows-txns (drop_header rows) ([], none) (done, cur) is in
        let same : flush cur done ≡ sets = cc (rw (long, is) at h) in
        (ground arith, drop_header rows, drop_header-Split rows, rw (← same, all) reads)
  ]
]
