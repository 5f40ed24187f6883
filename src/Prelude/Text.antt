-- ===== src/Prelude/Text.antt =====
-- Texts as lists of bytes, and decimal numbers as `strconv.Itoa` and `%d` print them.
use byz_bank.Prelude.{
  ℕ, zero, suc, ◌+◌, ◌-◌, ◌*◌, ◌/◌, ◌%◌, ◌≤◌, ◌<◌, ◌^◌, ◌≡◌, refl, ap, ◌≢◌, Bool, true, false, ◌&&◌,
  Option, none, some, List, [], ◌∷◌, ◌++◌, ltb, leb, if◌then◌else◌, ◌↔◌, arith, All, All-append,
}
use byz_bank.Prelude.Int.{ℤ, pos, negsuc, pos_part, neg_part, IsInt64}
use byz_bank.Prelude.Keys.{Key, ◌==◌, nat_key}

abbrev pub Bytes : Type 0
Bytes = List ℕ

-- The decimal digits of `n`; the fuel `suc n` is more than there are digits.
print_digits : ℕ → ℕ → Bytes
print_digits zero n = []
print_digits (suc f) n =
    let rest = print_digits f (n / 10) in
    if ltb n 10 then (48 + n) ∷ [] else rest ++ ((48 + n % 10) ∷ [])

unfoldable pub print_nat : ℕ → Bytes
unfolding print_digits
print_nat n = print_digits (suc n) n

-- `strconv.Itoa(z)` and `%d`.
unfoldable pub itoa : ℤ → Bytes
itoa (pos n) = print_nat n
itoa (negsuc n) = b'-' ∷ print_nat (suc n)

abbrev pub is_digit : ℕ → Bool
is_digit c = leb 48 c && leb c 57

-- Reads digits on top of `acc`; `none` at the first byte that is none.
unfoldable pub digits_value : ℕ → Bytes → Option ℕ
digits_value acc [] = some acc
digits_value acc (c ∷ cs) =
    let rest = digits_value (acc * 10 + (c - 48)) cs in if is_digit c then rest else none

digits_value-append :
    (acc v : ℕ) (xs ys : Bytes)
    → digits_value acc xs ≡ some v
    → digits_value acc (xs ++ ys) ≡ digits_value v ys
unfolding digits_value
digits_value-append acc v [] ys h = ground arith
digits_value-append acc v (c ∷ cs) ys h =
    ground (arith, digits_value-append (acc * 10 + (c - 48)) v cs ys)

last_digit : (q r : ℕ) → r < 10 → digits_value q ((48 + r) ∷ []) ≡ some (q * 10 + r)
unfolding digits_value
last_digit q r h = ground arith

digits_value-print_digits : (f n : ℕ) → n < f → digits_value 0 (print_digits f n) ≡ some n
unfolding print_digits
digits_value-print_digits zero n h = elim h [ ]
digits_value-print_digits (suc f) n h = ground (
  arith,
  digits_value-append 0 (n / 10) (print_digits f (n / 10)) ((48 + n % 10) ∷ []),
  digits_value-print_digits f (n / 10),
  last_digit (n / 10) (n % 10),
  last_digit 0 n,
)

-- What is printed reads back.
pub digits_value-print_nat : (n : ℕ) → digits_value 0 (print_nat n) ≡ some n
unfolding print_nat
digits_value-print_nat n = digits_value-print_digits (suc n) n (omega arith)

abbrev pub IsDigit : ℕ → Type 0
IsDigit c = (48 ≤ c) × (c ≤ 57)

print_digits-All : (f n : ℕ) → All IsDigit (print_digits f n)
unfolding print_digits
print_digits-All zero n = tt
print_digits-All (suc f) n = ground (
  arith,
  print_digits-All f (n / 10),
  All-append IsDigit (print_digits f (n / 10)) ((48 + n % 10) ∷ []),
)

-- A printed number is made of digits only.
pub print_nat-All : (n : ℕ) → All IsDigit (print_nat n)
unfolding print_nat
print_nat-All n = print_digits-All (suc n) n

-- `strconv.Atoi` less its range check: a sign, then at least one digit.
unsigned : Bytes → Option ℕ
unsigned [] = none
unsigned (c ∷ cs) = digits_value 0 (c ∷ cs)

abbrev negate_nat : ℕ → ℤ
negate_nat zero = pos 0
negate_nat (suc n) = negsuc n

abbrev map_option : (ℕ → ℤ) → Option ℕ → Option ℤ
map_option f none = none
map_option f (some n) = some (f n)

unfoldable pub parse_int : Bytes → Option ℤ
unfolding unsigned
parse_int [] = none
parse_int (c ∷ cs) =
    if c == b'-'
    then map_option negate_nat (unsigned cs)
    else if c == b'+'
    then map_option pos (unsigned cs)
    else map_option pos (unsigned (c ∷ cs))

append-ne-nil : (xs : Bytes) (c : ℕ) → xs ++ (c ∷ []) ≢ []
append-ne-nil [] c e = cc
append-ne-nil (x ∷ xs) c e = cc

pub print_nat-ne-nil : (n : ℕ) → print_nat n ≢ []
unfolding print_nat print_digits
print_nat-ne-nil n = ground (arith, append-ne-nil (print_digits n (n / 10)) (48 + n % 10))

unsigned_lem : (xs : Bytes) (n : ℕ) → xs ≢ [] → digits_value 0 xs ≡ some n → unsigned xs ≡ some n
unfolding unsigned
unsigned_lem [] n ne h = absurd (ne refl)
unsigned_lem (c ∷ cs) n ne h = h

parse_int_pos :
    (xs : Bytes) (n : ℕ)
    → xs ≢ []
    → All IsDigit xs
    → digits_value 0 xs ≡ some n
    → parse_int xs ≡ some (pos n)
unfolding parse_int
parse_int_pos [] n ne d h = absurd (ne refl)
parse_int_pos (c ∷ cs) n ne d h = ground (arith, unsigned_lem (c ∷ cs) n)

-- Reading back what `Itoa` printed gives the number.
pub parse_int-itoa : (z : ℤ) → parse_int (itoa z) ≡ some z
unfolding itoa parse_int
parse_int-itoa (pos n) =
    parse_int_pos (print_nat n) n (print_nat-ne-nil n) (print_nat-All n) (digits_value-print_nat n)
parse_int-itoa (negsuc n) = ap (map_option negate_nat) (
    unsigned_lem (print_nat (suc n)) (suc n) (print_nat-ne-nil (suc n))
      (digits_value-print_nat (suc n)))

-- Two numbers never print alike.
pub itoa-injective : (y z : ℤ) → itoa y ≡ itoa z → y ≡ z
itoa-injective y z h = cc (parse_int-itoa y, parse_int-itoa z, ap parse_int h)

-- `strconv.Atoi`: also refuses what 64 bits do not hold.
unfoldable pub in_int64 : ℤ → Bool
in_int64 z = ltb (pos_part z) (2 ^ 63) && leb (neg_part z) (2 ^ 63)

unfoldable pub atoi : Bytes → Option ℤ
unfolding in_int64
atoi s = elim (parse_int s) [ none ↦ none | some z ↦ if in_int64 z then some z else none ]

pub atoi-itoa : (z : ℤ) → IsInt64 z → atoi (itoa z) ≡ some z
unfolding atoi
atoi-itoa z h = ground (arith, parse_int-itoa z)

unfoldable pub data_eq : Bytes → Bytes → Bool
data_eq [] [] = true
data_eq (a ∷ as') (b ∷ bs) = (a == b) && data_eq as' bs
data_eq _ _ = false

pub data_eq_iff : (a b : Bytes) → (data_eq a b ≡ true) ↔ (a ≡ b)
unfolding data_eq
data_eq_iff [] [] = (λ _. refl, λ _. refl)
data_eq_iff [] (b ∷ bs) = (λ h. cc, λ h. cc)
data_eq_iff (a ∷ r) [] = (λ h. cc, λ h. cc)
data_eq_iff (a ∷ r) (b ∷ bs) = ground (arith, data_eq_iff r bs)

-- Comparing strings, `a == b`.
instance abbrev pub bytes_key : Key Bytes
bytes_key = record { beq = data_eq; beq_iff = data_eq_iff }
