-- ===== src/Wire/Numbers.antt =====
-- common.c: a number that is written with `%d` is read back by `atoi`.
use docs_plus_plus.Base.{
  ℕ, zero, suc, ◌+◌, ◌*◌, ◌-◌, ◌/◌, ◌%◌, ◌<◌, ◌^◌, ◌≤◌, ◌≡◌, ◌≢◌, refl, ◌∙◌, ap, inl, inr, ℤ, pos,
  negsuc, true, [], ◌∷◌, Text, ltb, length, decimal, digits_before, arith, Bool-cases,
}
use docs_plus_plus.Wire.{format_int, atoi, atoi_digits, negate, is_digit, separator}

atoi_digits-digit :
    (d v : ℕ) (tail : Text)
    → d < 10
    → atoi_digits ((48 + d) ∷ tail) v ≡ atoi_digits tail (v * 10 + d)
unfolding atoi_digits
atoi_digits-digit d v tail small = rw (digit, value) refl
  where
    digit : is_digit (48 + d) ≡ true
    digit = ground arith

    value : v * 10 + (48 + d - 48) ≡ v * 10 + d
    value = omega arith

pub atoi_digits-digits_before :
    (fuel n : ℕ) (tail : Text)
    → n < fuel
    → atoi_digits (digits_before fuel n tail) 0 ≡ atoi_digits tail n
unfolding digits_before
atoi_digits-digits_before zero n tail h = absurd (omega arith)
atoi_digits-digits_before (suc fuel) n tail h = elim (Bool-cases (ltb n 10)) [
  | inl small ↦
      rw small (atoi_digits-digit n 0 tail (ground arith) ∙ ap (atoi_digits tail) (omega arith))
  | inr big ↦ rw big (
      atoi_digits-digits_before fuel (n / 10) ((48 + n % 10) ∷ tail) (ground arith)
      ∙ atoi_digits-digit (n % 10) (n / 10) tail (omega arith)
      ∙ ap (atoi_digits tail) (omega arith))
]

-- A text of one digit or more.
pub data Digits : Text → Type 0 where
  last : (c : ℕ) → 48 ≤ c → c < 58 → Digits (c ∷ [])
  next : (c : ℕ) {t : Text} → 48 ≤ c → c < 58 → Digits t → Digits (c ∷ t)

digits_before-Digits :
    (fuel n : ℕ) {t : Text} → n < fuel → Digits t → Digits (digits_before fuel n t)
unfolding digits_before
digits_before-Digits zero n h ds = absurd (omega arith)
digits_before-Digits (suc fuel) n {t} h ds = elim (Bool-cases (ltb n 10)) [
  | inl small ↦ rw small (next (48 + n) (omega arith) (ground arith) ds)
  | inr big ↦ rw big (
      digits_before-Digits fuel (n / 10) (ground arith)
        (next (48 + n % 10) (omega arith) (omega arith) ds))
]

pub decimal-Digits : (n : ℕ) → Digits (decimal n)
unfolding decimal digits_before
decimal-Digits n = elim (Bool-cases (ltb n 10)) [
  | inl small ↦ rw small (last (48 + n) (omega arith) (ground arith))
  | inr big ↦ rw big (
      digits_before-Digits n (n / 10) (ground arith)
        (last (48 + n % 10) (omega arith) (omega arith)))
]

-- No byte is the separator.
abbrev pub NoSeparator : Text → Type 0
NoSeparator [] = Unit {0}
NoSeparator (c ∷ cs) = (c ≢ separator) × NoSeparator cs

Digits-NoSeparator : {t : Text} → Digits t → NoSeparator t
Digits-NoSeparator (last c low high) = (ground arith, tt)
Digits-NoSeparator (next c low high ds) = (ground arith, Digits-NoSeparator ds)

pub format_int-NoSeparator : (x : ℤ) → NoSeparator (format_int x)
unfolding format_int
format_int-NoSeparator (pos n) = Digits-NoSeparator (decimal-Digits n)
format_int-NoSeparator (negsuc n) = (ground arith, Digits-NoSeparator (decimal-Digits (suc n)))

atoi-Digits : {t : Text} → Digits t → atoi t ≡ pos (atoi_digits t 0)
unfolding atoi
atoi-Digits (last c low high) = ground arith
atoi-Digits (next c low high ds) = ground arith

atoi_digits-decimal : (n : ℕ) → atoi_digits (decimal n) 0 ≡ n
unfolding decimal atoi_digits
atoi_digits-decimal n = atoi_digits-digits_before (suc n) n [] (omega arith)

pub atoi-format_int : (x : ℤ) → atoi (format_int x) ≡ x
unfolding format_int atoi
atoi-format_int (pos n) = atoi-Digits (decimal-Digits n) ∙ ap pos (atoi_digits-decimal n)
atoi-format_int (negsuc n) = ap negate (atoi_digits-decimal (suc n))

pub format_int-ne-nil : (x : ℤ) → (c : ℕ) × ((cs : Text) × (format_int x ≡ c ∷ cs))
unfolding format_int
format_int-ne-nil (pos n) = head (decimal-Digits n)
  where
    head : {t : Text} → Digits t → (c : ℕ) × ((cs : Text) × (t ≡ c ∷ cs))
    head (last c low high) = (c, ([], refl))
    head (next c {t} low high ds) = (c, (t, refl))
format_int-ne-nil (negsuc n) = (45, (decimal (suc n), refl))

-- A number below 10 ^ (k + 1) has at most k + 1 digits.
length-digits_before :
    (k fuel n : ℕ) (tail : Text)
    → n < 10 ^ suc k
    → length (digits_before fuel n tail) ≤ suc k + length tail
unfolding digits_before
length-digits_before k zero n tail h = omega arith
length-digits_before zero (suc fuel) n tail h = rw small (omega arith)
  where
    small : ltb n 10 ≡ true
    small = ground arith
length-digits_before (suc k) (suc fuel) n tail h = elim (Bool-cases (ltb n 10)) [
  | inl small ↦ rw small (omega arith)
  | inr big ↦
      rw big (omega (arith, length-digits_before k fuel (n / 10) ((48 + n % 10) ∷ tail) shorter))
]
  where
    shorter : n / 10 < 10 ^ suc k
    shorter = omega arith

-- The range of `int`.
abbrev pub IsInt : ℤ → Type 0
IsInt (pos n) = n < 2 ^ 31
IsInt (negsuc n) = n < 2 ^ 31

-- A `%d` writes at most 11 bytes.
pub length-format_int : (x : ℤ) → IsInt x → length (format_int x) ≤ 11
unfolding format_int decimal
length-format_int (pos n) h = omega (arith, length-digits_before 9 (suc n) n [] (omega arith))
length-format_int (negsuc n) h =
    omega (arith, length-digits_before 9 (suc (suc n)) (suc n) [] (omega arith))
