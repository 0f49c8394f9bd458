-- ===== src/Client/Typing.antt =====
-- client.c: how a text is typed, and what `process_escape_sequences` makes of it.
pub mod Lines
use docs_plus_plus.Base.{
  ℕ, zero, suc, ◌+◌, ◌<◌, ◌≤◌, ◌≡◌, ◌≢◌, refl, sym, ap, ◌∙◌, inl, inr, ℤ, pos, Bool, true, false,
  ◌&&◌, ◌||◌, Option, none, some, List, [], ◌∷◌, ◌++◌, Text, codes, text_eq, ◌==◌, if◌then◌else◌,
  append-nil, append_assoc, Bool-cases, arith, decimal,
}
use docs_plus_plus.Client.{
  is_trimmed, keep_before, trim_end, trim_whitespace, escaped, process_escape_sequences,
  scan_digits, scan_int, after_space, before_newline, drop_newline, Input, write, write_input,
  read_input,
}

-- A byte as it is typed: with an escape for what a line cannot hold.
unfoldable pub type_byte : ℕ → Text
type_byte c =
    if c == b'\\'
    then b'\\' ∷ b'\\' ∷ []
    else if c == 10
    then b'\\' ∷ b'n' ∷ []
    else if c == 9
    then b'\\' ∷ b't' ∷ []
    else if c == 13
    then b'\\' ∷ b'r' ∷ []
    else c ∷ []

-- A text as it is typed.
unfoldable pub typed : Text → Text
unfolding type_byte
typed [] = []
typed (c ∷ cs) = type_byte c ++ typed cs

head-eq : {c d : ℕ} (t : Text) → (c == d) ≡ true → d ∷ t ≡ c ∷ t
head-eq t e = ap (λ x. x ∷ t) (ground arith)

process-letter :
    (c : ℕ) (t : Text)
    → (c == b'\\') ≡ false
    → process_escape_sequences (c ∷ t) ≡ c ∷ process_escape_sequences t
unfolding process_escape_sequences
process-letter c [] e = refl
process-letter c (d ∷ ds) e = rw e refl

process-type_byte :
    (c : ℕ) (t : Text)
    → process_escape_sequences (type_byte c ++ t) ≡ c ∷ process_escape_sequences t
unfolding type_byte process_escape_sequences
process-type_byte c t = elim (Bool-cases (c == b'\\')) [
  | inl e ↦ rw e (head-eq (process_escape_sequences t) e)
  | inr e ↦ elim (Bool-cases (c == 10)) [
    | inl e1 ↦ rw (e, e1) (head-eq (process_escape_sequences t) e1)
    | inr e1 ↦ elim (Bool-cases (c == 9)) [
      | inl e2 ↦ rw (e, e1, e2) (head-eq (process_escape_sequences t) e2)
      | inr e2 ↦ elim (Bool-cases (c == 13)) [
        | inl e3 ↦ rw (e, e1, e2, e3) (head-eq (process_escape_sequences t) e3)
        | inr e3 ↦ rw (e, e1, e2, e3) (process-letter c t e)
      ]
    ]
  ]
]

pub process-typed : (t : Text) → process_escape_sequences (typed t) ≡ t
unfolding typed process_escape_sequences
process-typed [] = refl
process-typed (c ∷ cs) = process-type_byte c (typed cs) ∙ ap (λ x. c ∷ x) (process-typed cs)

typed-append : (t u : Text) → typed (t ++ u) ≡ typed t ++ typed u
unfolding typed
typed-append [] u = refl
typed-append (c ∷ cs) u =
    rw (typed-append cs u) (sym (append_assoc (type_byte c) (typed cs) (typed u)))

-- The text ends in a byte that is not trimmed.
pub record EndsPlain (t : Text) : Type 0 where
  pub before : Text
  pub last : ℕ
  pub parts : t ≡ before ++ last ∷ []
  pub plain : is_trimmed last ≡ false

type_byte-EndsPlain : (c : ℕ) → c ≢ b' ' → EndsPlain (type_byte c)
unfolding type_byte
type_byte-EndsPlain c other = elim (Bool-cases (c == b'\\')) [
  | inl e ↦ rw e (record { before = b'\\' ∷ []; last = b'\\'; parts = refl; plain = refl })
  | inr e ↦ elim (Bool-cases (c == 10)) [
    | inl e1 ↦ rw (e, e1) (record { before = b'\\' ∷ []; last = b'n'; parts = refl; plain = refl })
    | inr e1 ↦ elim (Bool-cases (c == 9)) [
      | inl e2 ↦
          rw (e, e1, e2) (record { before = b'\\' ∷ []; last = b't'; parts = refl; plain = refl })
      | inr e2 ↦ elim (Bool-cases (c == 13)) [
        | inl e3 ↦
            rw (e, e1, e2, e3)
              (record { before = b'\\' ∷ []; last = b'r'; parts = refl; plain = refl })
        | inr e3 ↦
            rw (e, e1, e2, e3)
              (record { before = []; last = c; parts = refl; plain = ground arith })
      ]
    ]
  ]
]

pub typed-EndsPlain : (t : Text) (d : ℕ) → d ≢ b' ' → EndsPlain (typed (t ++ d ∷ []))
unfolding typed
typed-EndsPlain t d other =
    let end = type_byte-EndsPlain d other in
    record {
      before = typed t ++ end.before;
      last = end.last;
      parts =
          typed-append t (d ∷ [])
          ∙ ap (λ x. typed t ++ x) (append-nil (type_byte d) ∙ end.parts)
          ∙ sym (append_assoc (typed t) end.before (end.last ∷ []));
      plain = end.plain;
    }
