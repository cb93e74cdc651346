-- ===== src/Common/Decimal.antt =====
-- `%d` of a number that is not negative, and `strconv.Atoi`.
use Prim.Native.Nat.{ℕ, zero, suc, ◌+◌, ◌-◌, ◌*◌, ◌/◌, ◌%◌, ◌^◌, ◌<◌}
use Prim.Native.Char.{Char, code}
use Prim.Native.String.{String, [], ◌∷◌}
use mathlib.Core.Path.{◌≡◌, refl, ◌∙◌, ap, sym}
use mathlib.Core.Logic.{inl, inr}
use mathlib.Core.Bool.{Bool, true, false, ◌&&◌}
use mathlib.Core.Option.{Option, none, some, some-injective}
use native.Mathlib.Omega.{arith}
use kahuna_k8s_operator.Common.Tests.{ltb, leb, ◌==◌, if◌then◌else◌, le→leb, ltb→lt, Bool-cases}
use kahuna_k8s_operator.Common.Int.{ℤ, pos, negsuc}

digit : ℕ → Char
digit zero = "0"
digit (suc zero) = "1"
digit (suc (suc zero)) = "2"
digit (suc (suc (suc zero))) = "3"
digit (suc (suc (suc (suc zero)))) = "4"
digit (suc (suc (suc (suc (suc zero))))) = "5"
digit (suc (suc (suc (suc (suc (suc zero)))))) = "6"
digit (suc (suc (suc (suc (suc (suc (suc zero))))))) = "7"
digit (suc (suc (suc (suc (suc (suc (suc (suc zero)))))))) = "8"
digit _ = "9"

-- The digits of `n` in front of a text. Each round divides by ten, so `n + 1` rounds are enough.
digits : ℕ → ℕ → String → String
digits zero n out = out
digits (suc rounds) n out =
    let rest = digits rounds (n / 10) (digit (n % 10) ∷ out) in
    if ltb n 10 then digit n ∷ out else rest

unfoldable pub decimal : ℕ → String
unfolding digits digit
decimal n = digits (suc n) n []

abbrev pub is_digit : Char → Bool
is_digit c = leb 48 (code c) && leb (code c) 57

-- The number that a text of digits spells after `acc`.
scan : ℕ → String → Option ℕ
scan acc [] = some acc
scan acc (c ∷ s) = if is_digit c then scan (acc * 10 + (code c - 48)) s else none

unsigned : String → Option ℕ
unfolding scan
unsigned [] = none
unsigned (c ∷ s) = scan 0 (c ∷ s)

-- A magnitude below 2^63 with its sign; -2^63 is in range too.
signed : Bool → Option ℕ → Option ℤ
signed minus none = none
signed false (some n) = if ltb n (2 ^ 63) then some (pos n) else none
signed true (some zero) = some (pos 0)
signed true (some (suc n)) = if ltb n (2 ^ 63) then some (negsuc n) else none

-- `strconv.Atoi`; `none` is an error.
unfoldable pub atoi : String → Option ℤ
unfolding unsigned signed
atoi [] = none
atoi (c ∷ s) =
    if code c == 45
    then signed true (unsigned s)
    else if code c == 43
    then signed false (unsigned s)
    else signed false (unsigned (c ∷ s))

code-digit : (d : ℕ) → d < 10 → code (digit d) ≡ 48 + d
unfolding digit
code-digit zero h = refl
code-digit (suc zero) h = refl
code-digit (suc (suc zero)) h = refl
code-digit (suc (suc (suc zero))) h = refl
code-digit (suc (suc (suc (suc zero)))) h = refl
code-digit (suc (suc (suc (suc (suc zero))))) h = refl
code-digit (suc (suc (suc (suc (suc (suc zero)))))) h = refl
code-digit (suc (suc (suc (suc (suc (suc (suc zero))))))) h = refl
code-digit (suc (suc (suc (suc (suc (suc (suc (suc zero)))))))) h = refl
code-digit (suc (suc (suc (suc (suc (suc (suc (suc (suc zero))))))))) h = refl
code-digit (suc (suc (suc (suc (suc (suc (suc (suc (suc (suc d)))))))))) h = absurd (omega arith)

scan-digit : (acc d : ℕ) (s : String) → d < 10 → scan acc (digit d ∷ s) ≡ scan (acc * 10 + d) s
unfolding scan
scan-digit acc d s h = rw (code-digit d h) (
    rw (le→leb 48 (48 + d) (omega arith), le→leb (48 + d) 57 (omega arith))
      (ap (λ k. scan k s) (omega arith)))

scan-digits : (rounds n : ℕ) (out : String) → n < rounds → scan 0 (digits rounds n out) ≡ scan n out
unfolding digits
scan-digits zero n out h = elim h [ ]
scan-digits (suc rounds) n out h = elim (Bool-cases (ltb n 10)) [
  | inl small ↦
      rw small (scan-digit 0 n out (ltb→lt n 10 small) ∙ ap (λ k. scan k out) (omega arith))
  | inr large ↦ rw large (
      scan-digits rounds (n / 10) (digit (n % 10) ∷ out) (ground arith)
      ∙ (scan-digit (n / 10) (n % 10) out (omega arith) ∙ ap (λ k. scan k out) (omega arith)))
]

-- Reading a printed number gives the number back.
scan-decimal : (n : ℕ) → scan 0 (decimal n) ≡ some n
unfolding decimal scan
scan-decimal n = scan-digits (suc n) n [] (omega arith)

-- Different numbers print differently.
pub decimal_inj : (m n : ℕ) → decimal m ≡ decimal n → m ≡ n
decimal_inj m n e = some-injective m n (sym (scan-decimal m) ∙ (ap (scan 0) e ∙ scan-decimal n))

abbrev pub all_digits : String → Bool
all_digits [] = true
all_digits (c ∷ s) = is_digit c && all_digits s

abbrev pub is_cons : String → Bool
is_cons [] = false
is_cons (c ∷ s) = true

is_digit-digit : (d : ℕ) → d < 10 → is_digit (digit d) ≡ true
is_digit-digit d h = rw (code-digit d h) (ground arith)

digits-all_digits :
    (rounds n : ℕ) (out : String) → all_digits out ≡ true → all_digits (digits rounds n out) ≡ true
unfolding digits
digits-all_digits zero n out h = h
digits-all_digits (suc rounds) n out h = elim (Bool-cases (ltb n 10)) [
  | inl small ↦ rw small (rw (is_digit-digit n (ltb→lt n 10 small)) h)
  | inr large ↦ rw large (
      digits-all_digits rounds (n / 10) (digit (n % 10) ∷ out)
        (rw (is_digit-digit (n % 10) (omega arith)) h))
]

digits-is_cons :
    (rounds n : ℕ) (c : Char) (out : String) → is_cons (digits rounds n (c ∷ out)) ≡ true
unfolding digits
digits-is_cons zero n c out = refl
digits-is_cons (suc rounds) n c out = elim (Bool-cases (ltb n 10)) [
  | inl small ↦ rw small
  | inr large ↦ rw large (digits-is_cons rounds (n / 10) (digit (n % 10)) (c ∷ out))
]

pub decimal-is_cons : (n : ℕ) → is_cons (decimal n) ≡ true
unfolding decimal
decimal-is_cons n = elim (Bool-cases (ltb n 10)) [
  | inl small ↦ rw small
  | inr large ↦ rw large (digits-is_cons n (n / 10) (digit (n % 10)) [])
]

-- A printed number is a text of digits.
pub decimal-all_digits : (n : ℕ) → all_digits (decimal n) ≡ true
unfolding decimal
decimal-all_digits n = digits-all_digits (suc n) n [] refl

atoi-digits :
    (s : String) (n : ℕ)
    → is_cons s ≡ true
    → all_digits s ≡ true
    → scan 0 s ≡ some n
    → n < 2 ^ 63
    → atoi s ≡ some (pos n)
unfolding atoi
atoi-digits [] n c d e h = cc
atoi-digits (c ∷ s) n _ d e h = ground arith

-- `strconv.Atoi` reads a printed int64 back.
pub atoi-decimal : (n : ℕ) → n < 2 ^ 63 → atoi (decimal n) ≡ some (pos n)
atoi-decimal n h =
    atoi-digits (decimal n) n (decimal-is_cons n) (decimal-all_digits n) (scan-decimal n) h
