-- ===== src/Testcase/Print.antt =====
-- Transactions and server lists as test files write them read back, internal/testcase/parse.go.
use byz_bank.Prelude.{
  ℕ, ◌+◌, ◌-◌, ◌*◌, ◌^◌, ◌<◌, ◌≡◌, ◌≢◌, refl, ap₂, ◌∙◌, true, false, List, [], ◌∷◌, ◌++◌, none,
  some, arith, All,
}
use byz_bank.Prelude.Int.{pos}
use byz_bank.Prelude.Keys.{◌==◌, nat_key}
use byz_bank.Prelude.Text.{
  Bytes, is_digit, IsDigit, digits_value, print_nat, digits_value-print_nat, print_nat-All,
  print_nat-ne-nil,
}
use byz_bank.Testcase.{Transaction}
use byz_bank.Testcase.Parse.{
  is_blank, read_digits, number, skip_blanks, expect, comma, saturate, match_transaction,
  find_transaction, parse_transaction, parse_server_list,
}

-- The text does not go on with a digit, or with a blank.
abbrev NoDigit : Bytes → Type 0
NoDigit [] = Unit {0}
NoDigit (c ∷ cs) = is_digit c ≡ false

abbrev NoBlank : Bytes → Type 0
NoBlank [] = Unit {0}
NoBlank (c ∷ cs) = is_blank c ≡ false

abbrev pub AreBlanks : Bytes → Type 0
AreBlanks w = All (λ c. is_blank c ≡ true) w

read_digits-stop : (acc : ℕ) (rest : Bytes) → NoDigit rest → read_digits acc rest ≡ (acc, rest)
unfolding read_digits
read_digits-stop acc [] h = refl
read_digits-stop acc (c ∷ cs) h = rw h refl

read_digits-append :
    (acc v : ℕ) (ds rest : Bytes)
    → NoDigit rest
    → digits_value acc ds ≡ some v
    → read_digits acc (ds ++ rest) ≡ (v, rest)
unfolding digits_value read_digits
read_digits-append acc v [] rest stop h = read_digits-stop acc rest stop ∙ ground arith
read_digits-append acc v (c ∷ ds) rest stop h =
    ground (arith, read_digits-append (acc * 10 + (c - 48)) v ds rest stop)

number-append :
    (ds rest : Bytes) (n : ℕ)
    → ds ≢ []
    → All IsDigit ds
    → NoDigit rest
    → digits_value 0 ds ≡ some n
    → number (ds ++ rest) ≡ some (n, rest)
unfolding number
number-append [] rest n ne d stop h = absurd (ne refl)
number-append (c ∷ ds) rest n ne (d, _) stop h =
    let digit : is_digit c ≡ true = ground arith in
    rw (digit, read_digits-append 0 n (c ∷ ds) rest stop h) refl

number-print_nat :
    (n : ℕ) (rest : Bytes) → NoDigit rest → number (print_nat n ++ rest) ≡ some (n, rest)
number-print_nat n rest stop =
    number-append (print_nat n) rest n (print_nat-ne-nil n) (print_nat-All n) stop
      (digits_value-print_nat n)

skip_blanks-stop : (rest : Bytes) → NoBlank rest → skip_blanks rest ≡ rest
unfolding skip_blanks
skip_blanks-stop [] h = refl
skip_blanks-stop (c ∷ cs) h = rw h refl

skip_blanks-append : (w rest : Bytes) → AreBlanks w → NoBlank rest → skip_blanks (w ++ rest) ≡ rest
unfolding skip_blanks
skip_blanks-append [] rest h stop = skip_blanks-stop rest stop
skip_blanks-append (c ∷ w) rest (b, h) stop = rw b (skip_blanks-append w rest h stop)

comma-append :
    (w w' rest : Bytes)
    → AreBlanks w
    → AreBlanks w'
    → NoBlank rest
    → comma (w ++ (44 ∷ (w' ++ rest))) ≡ some rest
unfolding comma expect
comma-append w w' rest h h' stop =
    rw (skip_blanks-append w (44 ∷ (w' ++ rest)) h refl)
      (rw (skip_blanks-append w' rest h' stop) refl)

digit-NoBlank : (ds rest : Bytes) → ds ≢ [] → All IsDigit ds → NoBlank (ds ++ rest)
digit-NoBlank [] rest ne d = absurd (ne refl)
digit-NoBlank (c ∷ ds) rest ne (d, _) = ground arith

print_nat-NoBlank : (n : ℕ) (rest : Bytes) → NoBlank (print_nat n ++ rest)
print_nat-NoBlank n rest = digit-NoBlank (print_nat n) rest (print_nat-ne-nil n) (print_nat-All n)

blanks-NoDigit : (w rest : Bytes) → AreBlanks w → NoDigit (w ++ (44 ∷ rest))
blanks-NoDigit [] rest h = refl
blanks-NoDigit (c ∷ w) rest (b, _) = ground arith

saturate-eq : (n : ℕ) → n < 2 ^ 63 → saturate n ≡ n
unfolding saturate
saturate-eq n h = ground arith

-- "(a,b,d)" with blanks round the commas, and a text behind it.
abbrev pub transaction_text : ℕ → ℕ → ℕ → Bytes → Bytes → Bytes → Bytes → Bytes → Bytes
transaction_text a b d w1 w2 w3 w4 rest =
    40
    ∷ (print_nat a
        ++ (w1
            ++ (44 ∷ (w2 ++ (print_nat b ++ (w3 ++ (44 ∷ (w4 ++ (print_nat d ++ (41 ∷ rest))))))))))

match_transaction-text :
    (a b d : ℕ) (w1 w2 w3 w4 rest : Bytes)
    → a < 2 ^ 63
    → b < 2 ^ 63
    → d < 2 ^ 63
    → AreBlanks w1
    → AreBlanks w2
    → AreBlanks w3
    → AreBlanks w4
    → match_transaction (transaction_text a b d w1 w2 w3 w4 rest)
      ≡ some (record { x = pos a; y = pos b; amt = pos d })
unfolding match_transaction expect
match_transaction-text a b d w1 w2 w3 w4 rest ha hb hd h1 h2 h3 h4 =
    rw
      (
        number-print_nat a _ (blanks-NoDigit w1 _ h1),
        comma-append w1 w2 _ h1 h2 (print_nat-NoBlank b _),
        number-print_nat b _ (blanks-NoDigit w3 _ h3),
        comma-append w3 w4 _ h3 h4 (print_nat-NoBlank d _),
        number-print_nat d (41 ∷ rest) refl,
        saturate-eq a ha,
        saturate-eq b hb,
        saturate-eq d hd,
      )
      refl

abbrev pub NoParen : Bytes → Type 0
NoParen before = All (λ c. (c == 40) ≡ false) before

no_match : (c : ℕ) (cs : Bytes) → (c == 40) ≡ false → match_transaction (c ∷ cs) ≡ none
unfolding match_transaction expect
no_match c cs h = rw h refl

find_transaction-text :
    (before text : Bytes) (t : Transaction)
    → NoParen before
    → find_transaction text ≡ some t
    → find_transaction (before ++ text) ≡ some t
unfolding find_transaction
find_transaction-text [] text t h found = found
find_transaction-text (c ∷ cs) text t (h, rest) found =
    rw (no_match c (cs ++ text) h) (find_transaction-text cs text t rest found)

found_here :
    (c : ℕ) (cs : Bytes) (t : Transaction)
    → match_transaction (c ∷ cs) ≡ some t
    → find_transaction (c ∷ cs) ≡ some t
unfolding find_transaction
found_here c cs t h = rw h refl

-- A field that holds "(x,y,amt)", with any blanks round the commas, any text without an opening
-- parenthesis before it and any text behind it, reads as that transaction, for numbers that 64 bits hold.
pub parse_transaction-text :
    (a b d : ℕ) (before w1 w2 w3 w4 rest : Bytes)
    → a < 2 ^ 63
    → b < 2 ^ 63
    → d < 2 ^ 63
    → NoParen before
    → AreBlanks w1
    → AreBlanks w2
    → AreBlanks w3
    → AreBlanks w4
    → parse_transaction (before ++ transaction_text a b d w1 w2 w3 w4 rest)
      ≡ some (record { x = pos a; y = pos b; amt = pos d })
unfolding parse_transaction
parse_transaction-text a b d before w1 w2 w3 w4 rest ha hb hd h h1 h2 h3 h4 =
    find_transaction-text before _ _ h
      (found_here 40 _ _ (match_transaction-text a b d w1 w2 w3 w4 rest ha hb hd h1 h2 h3 h4))

-- "S1, S2, …": the ids with a separator behind each.
abbrev pub server_list_text : Bytes → List ℕ → Bytes
server_list_text sep [] = []
server_list_text sep (n ∷ ns) = 83 ∷ (print_nat n ++ (sep ++ server_list_text sep ns))

-- A separator has no `S`, and does not begin with a digit.
abbrev NoServer : Bytes → Type 0
NoServer sep = All (λ c. (c == 83) ≡ false) sep

parse_server_list-skip :
    (w rest : Bytes) → NoServer w → parse_server_list (w ++ rest) ≡ parse_server_list rest
unfolding parse_server_list
parse_server_list-skip [] rest h = refl
parse_server_list-skip (c ∷ w) rest (b, h) = rw b (parse_server_list-skip w rest h)

digits-NoServer : (ds : Bytes) → All IsDigit ds → NoServer ds
digits-NoServer [] h = tt
digits-NoServer (c ∷ ds) (d, h) = (ground arith, digits-NoServer ds h)

-- A list of servers as a test file writes it, `S` before each id and a separator without digits and
-- without `S` behind it, reads as the ids.
pub parse_server_list-text :
    (s : ℕ) (sep : Bytes) (ns : List ℕ)
    → is_digit s ≡ false
    → NoServer (s ∷ sep)
    → All (λ n. n < 2 ^ 63) ns
    → parse_server_list (server_list_text (s ∷ sep) ns) ≡ ns
unfolding parse_server_list
parse_server_list-text s sep [] stop h small = refl
parse_server_list-text s sep (n ∷ ns) stop h (lt, small) =
    let rest = server_list_text (s ∷ sep) ns in
    let skipped : parse_server_list (print_nat n ++ ((s ∷ sep) ++ rest)) ≡ ns =
      parse_server_list-skip (print_nat n) _ (digits-NoServer (print_nat n) (print_nat-All n))
      ∙ parse_server_list-skip (s ∷ sep) rest h
      ∙ parse_server_list-text s sep ns stop h small in
    rw (number-print_nat n ((s ∷ sep) ++ rest) stop) (ap₂ ◌∷◌ (saturate-eq n lt) skipped)
