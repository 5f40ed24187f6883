-- ===== src/Testcase/Parse.antt =====
-- Reading one field of a test file, `parseTransaction` and `parseServerList` of
-- internal/testcase/parse.go. The two regular expressions are written out as matchers: no digit and
-- no blank stands for another part of them, so the longest match of each part is the only one.
use byz_bank.Prelude.{
  ℕ, ◌+◌, ◌-◌, ◌*◌, ◌^◌, Bool, ◌||◌, List, [], ◌∷◌, Option, none, some, if◌then◌else◌, ltb,
}
use byz_bank.Prelude.Int.{pos}
use byz_bank.Prelude.Keys.{◌==◌, nat_key}
use byz_bank.Prelude.Text.{Bytes, is_digit}
use byz_bank.Testcase.{Transaction}

infixl 5 ◌>>=◌
abbrev pub ◌>>=◌ : {A B : Type 0} → Option A → (A → Option B) → Option B
none >>= f = none
some a >>= f = f a

-- The blanks of `\s`: tab, line feed, form feed, carriage return and space.
abbrev pub is_blank : ℕ → Bool
is_blank c = (c == 9) || (c == 10) || (c == 12) || (c == 13) || (c == 32)

-- `\d+` read as a number on top of `acc`, and what follows it.
unfoldable pub read_digits : ℕ → Bytes → ℕ × Bytes
read_digits acc [] = (acc, [])
read_digits acc (c ∷ cs) =
    let rest = read_digits (acc * 10 + (c - 48)) cs in if is_digit c then rest else (acc, c ∷ cs)

unfoldable pub number : Bytes → Option (ℕ × Bytes)
number [] = none
number (c ∷ cs) = if is_digit c then some (read_digits 0 (c ∷ cs)) else none

-- `\s*`
unfoldable pub skip_blanks : Bytes → Bytes
skip_blanks [] = []
skip_blanks (c ∷ cs) = if is_blank c then skip_blanks cs else c ∷ cs

-- The byte `b` and what follows it.
unfoldable pub expect : ℕ → Bytes → Option Bytes
expect b [] = none
expect b (c ∷ cs) = if c == b then some cs else none

-- `\s*,\s*`
unfoldable pub comma : Bytes → Option Bytes
unfolding skip_blanks expect
comma s = do let s' = skip_blanks s; rest ← expect 44 s'; some (skip_blanks rest)

-- `strconv.Atoi` and `ParseInt` of digits whose error is dropped: a number that 64 bits do not hold
-- becomes the largest.
unfoldable pub saturate : ℕ → ℕ
saturate n = if ltb n (2 ^ 63) then n else 2 ^ 63 - 1

-- A match of `\((\d+)\s*,\s*(\d+)\s*,\s*(\d+)\)` here.
unfoldable pub match_transaction : Bytes → Option Transaction
match_transaction s = do
  s1 ← expect 40 s
  (x, s2) ← number s1
  s3 ← comma s2
  (y, s4) ← number s3
  s5 ← comma s4
  (amt, s6) ← number s5
  _ ← expect 41 s6
  some (record { x = pos (saturate x); y = pos (saturate y); amt = pos (saturate amt) })

abbrev pub or_else : {A : Type 0} → Option A → Option A → Option A
or_else none later = later
or_else (some a) later = some a

-- The leftmost match.
unfoldable pub find_transaction : Bytes → Option Transaction
find_transaction [] = none
find_transaction (c ∷ cs) = or_else (match_transaction (c ∷ cs)) (find_transaction cs)

-- `strings.TrimSpace` drops no byte of a match, so it is left out.
unfoldable pub parse_transaction : Bytes → Option Transaction
parse_transaction s = find_transaction s

-- All matches of `S(\d+)`, from left to right. The digits of a match hold no `S`, so the search may go
-- on right behind the `S`.
unfoldable pub parse_server_list : Bytes → List ℕ
parse_server_list [] = []
parse_server_list (c ∷ cs) =
    let rest = parse_server_list cs in
    if c == 83 then elim (number cs) [ none ↦ rest | some (n, _) ↦ saturate n ∷ rest ] else rest
