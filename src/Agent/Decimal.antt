-- ===== src/Agent/Decimal.antt =====
-- fmt.Sprint and strconv.Atoi at exit codes.
use delegatio.Common.{
  ℕ, zero, suc, ◌+◌, ◌-◌, ◌*◌, ◌/◌, ◌%◌, ◌^◌, sym, ap, ◌∙◌, ◌≤◌, ◌<◌, ◌≡◌, refl, [], ◌∷◌, Option,
  none, some, ◌||◌, arith, ltb, eqb, if◌then◌else◌, Bool-cases, inl, inr,
}
use delegatio.Store.{Bytes}

-- Go's int, `negsuc n` being -(n + 1).
pub data ℤ : Type 0 where
  pos : ℕ → ℤ
  negsuc : ℕ → ℤ

-- The digits of a number before `rest`; fuel above the number is enough.
pub digits : ℕ → ℕ → Bytes → Bytes
digits zero n rest = rest
digits (suc fuel) n rest =
    let more = digits fuel (n / 10) ((b'0' + n % 10) ∷ rest) in
    if ltb n 10 then (b'0' + n) ∷ rest else more

unfoldable pub sprint : ℤ → Bytes
sprint (pos n) = digits (suc n) n []
sprint (negsuc n) = b'-' ∷ digits (suc (suc n)) (suc n) []

-- The value of digits behind `n`, where no other byte may stand.
pub scan : Bytes → ℕ → Option ℕ
scan [] n = some n
scan (c ∷ s) n =
    let rest = scan s (n * 10 + (c - b'0')) in if ltb c b'0' || ltb b'9' c then none else rest

-- An int has 64 bits.
abbrev pub max_int : ℕ
max_int = 2 ^ 63 - 1

in_range : Option ℕ → ℕ → Option ℕ
in_range none limit = none
in_range (some n) limit = if ltb limit n then none else some n

negated : Option ℕ → Option ℤ
negated none = none
negated (some zero) = some (pos 0)
negated (some (suc n)) = some (negsuc n)

positive : Option ℕ → Option ℤ
positive none = none
positive (some n) = some (pos n)

scan_digits : Bytes → ℕ → Option ℕ
scan_digits [] limit = none
scan_digits (c ∷ s) limit = in_range (scan (c ∷ s) 0) limit

unfoldable pub atoi : Bytes → Option ℤ
unfolding in_range negated positive scan_digits scan
atoi [] = none
atoi (c ∷ s) =
    if eqb c b'-'
    then negated (scan_digits s (max_int + 1))
    else if eqb c b'+'
    then positive (scan_digits s max_int)
    else positive (scan_digits (c ∷ s) max_int)

pub scan-digits : (fuel n : ℕ) (rest : Bytes) → n < fuel → scan (digits fuel n rest) 0 ≡ scan rest n
unfolding digits scan
scan-digits zero n rest h = absurd (omega arith)
scan-digits (suc fuel) n rest h = elim (Bool-cases (ltb n 10)) [
  | inl small ↦ rw small (ground arith)
  | inr large ↦ rw large (ground (arith, scan-digits fuel (n / 10) ((b'0' + n % 10) ∷ rest)))
]

-- The digits of a number begin with a digit.
digits_cases :
    (fuel n : ℕ) (rest : Bytes)
    → n < fuel
    → (c : ℕ) × (s : Bytes) × (digits fuel n rest ≡ c ∷ s) × (b'0' ≤ c) × (c ≤ b'9')
unfolding digits
digits_cases zero n rest h = absurd (omega arith)
digits_cases (suc fuel) n rest h = elim (Bool-cases (ltb n 10)) [
  | inl small ↦ (b'0' + n, rest, rw small, omega arith, ground arith)
  | inr large ↦
      let (c, s, e, low, high) =
        digits_cases fuel (n / 10) ((b'0' + n % 10) ∷ rest) (ground arith) in
      (c, s, rw large e, low, high)
]

pub sprint_cases : (n : ℕ) → (c : ℕ) × (s : Bytes) × (sprint (pos n) ≡ c ∷ s)
unfolding sprint
sprint_cases n = let (c, s, e, low, high) = digits_cases (suc n) n [] (omega arith) in (c, s, e)

-- Every exit code that is not negative is read back from its print.
pub atoi-sprint : (n : ℕ) → n ≤ max_int → atoi (sprint (pos n)) ≡ some (pos n)
unfolding atoi sprint
atoi-sprint n h =
    let (c, s, e, low, high) = digits_cases (suc n) n [] (omega arith) in
    let read : scan (c ∷ s) 0 ≡ some n =
      ap (λ t. scan t 0) (sym e) ∙ scan-digits (suc n) n [] (omega arith) in
    rw e (ground (arith, read))

pub atoi-minus_one : atoi (sprint (negsuc 0)) ≡ some (negsuc 0)
unfolding atoi sprint digits scan in_range negated scan_digits
atoi-minus_one = refl

pub sprint_minus_one : sprint (negsuc 0) ≡ b'-' ∷ b'1' ∷ []
unfolding sprint digits
sprint_minus_one = refl
