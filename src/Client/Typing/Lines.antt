-- ===== src/Client/Typing/Lines.antt =====
-- client.c: the line of a write session, from its text to the message's fields.
use docs_plus_plus.Base.{
  ℕ, zero, suc, ◌^◌, ◌∙◌, ◌-◌, length, take_of_length-le, ◌+◌, ◌/◌, ◌%◌, ◌<◌, ◌≤◌, ◌≡◌, ◌≢◌, refl,
  sym, ap, inl, inr, pos, true, false, some, [], ◌∷◌, ◌++◌, Text, codes, text_eq, ltb, ◌==◌,
  append_assoc, Bool-cases, arith, decimal, digits_before,
}
use docs_plus_plus.Codes.{max_buffer}
use docs_plus_plus.Wire.{atoi_digits, is_digit, is_space}
use docs_plus_plus.Wire.Numbers.{Digits, last, next, decimal-Digits, atoi_digits-digits_before}
use docs_plus_plus.Client.{
  is_trimmed, keep_before, trim_end, trim_whitespace, process_escape_sequences, scan_digits,
  scan_int, after_space, before_newline, drop_newline, write, is_int, write_input, read_input,
  fgets,
}
use docs_plus_plus.Client.Typing.{typed, EndsPlain, process-typed, typed-EndsPlain}

trim_end-plain :
    (t : Text) (l : ℕ) → is_trimmed l ≡ false → trim_end (t ++ l ∷ 10 ∷ []) ≡ t ++ l ∷ []
unfolding trim_end keep_before
trim_end-plain [] l e = rw e refl
trim_end-plain (c ∷ []) l e = rw (trim_end-plain [] l e) refl
trim_end-plain (c ∷ d ∷ t) l e = rw (trim_end-plain (d ∷ t) l e) refl

drop_newline-plain :
    (t : Text) (l : ℕ) → is_trimmed l ≡ false → drop_newline (t ++ l ∷ []) ≡ t ++ l ∷ []
unfolding drop_newline before_newline
drop_newline-plain [] l e = ground arith
drop_newline-plain (c ∷ []) l e = ap (λ x. c ∷ x) (drop_newline-plain [] l e)
drop_newline-plain (c ∷ d ∷ t) l e = ap (λ x. c ∷ x) (drop_newline-plain (d ∷ t) l e)

digits_before-append :
    (fuel n : ℕ) (t u : Text) → digits_before fuel n t ++ u ≡ digits_before fuel n (t ++ u)
unfolding digits_before
digits_before-append zero n t u = refl
digits_before-append (suc fuel) n t u = elim (Bool-cases (ltb n 10)) [
  | inl small ↦ rw small refl
  | inr big ↦ rw big (digits_before-append fuel (n / 10) ((48 + n % 10) ∷ t) u)
]

atoi_digits-before_space : (n : ℕ) (t : Text) → atoi_digits (decimal n ++ b' ' ∷ t) 0 ≡ n
unfolding decimal atoi_digits
atoi_digits-before_space n t =
    rw (digits_before-append (suc n) n [] (b' ' ∷ t))
      (atoi_digits-digits_before (suc n) n (b' ' ∷ t) (omega arith))

pub trim_whitespace-plain :
    (t : Text) (l : ℕ) → is_trimmed l ≡ false → trim_whitespace (t ++ l ∷ 10 ∷ []) ≡ t ++ l ∷ []
unfolding trim_whitespace
trim_whitespace-plain [] l e = rw (trim_whitespace, e) refl
trim_whitespace-plain (c ∷ t) l e = rw (trim_whitespace, trim_end-plain (c ∷ t) l e) refl

scan_int-digit :
    (c : ℕ) (u : Text) → 48 ≤ c → c < 58 → scan_int (c ∷ u) ≡ some (pos (atoi_digits (c ∷ u) 0))
unfolding scan_int scan_digits
scan_int-digit c u low high = rw (space, minus, plus, digit) refl
  where
    space : is_space c ≡ false
    space = ground arith

    minus : (c == b'-') ≡ false
    minus = ground arith

    plus : (c == b'+') ≡ false
    plus = ground arith

    digit : is_digit c ≡ true
    digit = ground arith

scan_int-Digits :
    {t : Text} (u : Text) → Digits t → scan_int (t ++ u) ≡ some (pos (atoi_digits (t ++ u) 0))
scan_int-Digits u (last c low high) = scan_int-digit c u low high
scan_int-Digits u (next c {t} low high ds) = scan_int-digit c (t ++ u) low high

no_space : (c : ℕ) → 48 ≤ c → (c == b' ') ≡ false
no_space c low = ground arith

after_space-Digits : {t : Text} (u : Text) → Digits t → after_space (t ++ b' ' ∷ u) ≡ some u
unfolding after_space
after_space-Digits u (last c low high) = rw (no_space c low) refl
after_space-Digits u (next c low high ds) = rw (no_space c low) (after_space-Digits u ds)

no_etirw : {t : Text} (u : Text) → Digits t → text_eq (t ++ u) (codes "ETIRW") ≡ false
unfolding text_eq
no_etirw u (last c low high) = ground arith
no_etirw u (next c low high ds) = ground arith

read_input-plain :
    (word_idx : ℕ) (t : Text) (l : ℕ)
    → is_trimmed l ≡ false
    → word_idx < 2 ^ 31
    → read_input ((decimal word_idx ++ b' ' ∷ t) ++ l ∷ 10 ∷ [])
      ≡ write (pos word_idx) (process_escape_sequences (t ++ l ∷ []))
unfolding read_input write_input
read_input-plain word_idx t l plain small =
    let ds = decimal-Digits word_idx in
    let held : is_int (pos word_idx) ≡ true = unfold is_int in ground (arith, small) in
    rw
      (
        trim_whitespace-plain (decimal word_idx ++ b' ' ∷ t) l plain,
        append_assoc (decimal word_idx) (b' ' ∷ t) (l ∷ []),
        no_etirw (b' ' ∷ (t ++ l ∷ [])) ds,
        scan_int-Digits (b' ' ∷ (t ++ l ∷ [])) ds,
        after_space-Digits (t ++ l ∷ []) ds,
        atoi_digits-before_space word_idx (t ++ l ∷ []),
        held,
        drop_newline-plain t l plain,
      )
      refl

-- The line that a user types.
abbrev pub typed_line : ℕ → Text → Text
typed_line word_idx content = decimal word_idx ++ b' ' ∷ (typed content ++ 10 ∷ [])

typed_line-plain :
    (word_idx : ℕ) (content : Text) (end : EndsPlain (typed content))
    → typed_line word_idx content ≡ (decimal word_idx ++ b' ' ∷ end.before) ++ end.last ∷ 10 ∷ []
typed_line-plain word_idx content end =
    rw
      (
        end.parts,
        append_assoc end.before (end.last ∷ []) (10 ∷ []),
        append_assoc (decimal word_idx) (b' ' ∷ end.before) (end.last ∷ 10 ∷ []),
      )
      refl

-- A content can be typed in a write session: the line with the word's index, a space and the
-- content, in which the backslash, the newline, the tab and the carriage return are escaped, is
-- read as a write of that content at that index. The content may not end in a space, which is
-- trimmed, `int` holds the index, and the whole line is shorter than `MAX_BUFFER`.
pub read_input-typed :
    (word_idx : ℕ) (content : Text) (end : ℕ)
    → end ≢ b' '
    → word_idx < 2 ^ 31
    → length (typed_line word_idx (content ++ end ∷ [])) < max_buffer
    → read_input (fgets (typed_line word_idx (content ++ end ∷ [])))
      ≡ write (pos word_idx) (content ++ end ∷ [])
unfolding fgets
read_input-typed word_idx content end other small short =
    let plain = typed-EndsPlain content end other in
    let line = typed_line word_idx (content ++ end ∷ []) in
    ap read_input (take_of_length-le (max_buffer - 1) line (omega (arith, short)))
    ∙ rw
        (
          typed_line-plain word_idx (content ++ end ∷ []) plain,
          read_input-plain word_idx plain.before plain.last plain.plain small,
          sym plain.parts,
          process-typed (content ++ end ∷ []),
        )
        refl
