-- ===== src/Document/Split.antt =====
-- file_ops.c: `split_by_delimiters` on a text that a client wants to insert.
use docs_plus_plus.Base.{
  ℕ, Option, none, some, List, [], ◌∷◌, ◌++◌, Text, leb, if◌then◌else◌, length,
}
use docs_plus_plus.Document.{max_word, is_blank, is_newline, is_delimiter}
use docs_plus_plus.Document.Parse.{add_blank}

-- `parts[0 .. *count)`, `buffer[0 .. buf_idx)`, and the run of blanks that is being collected.
pub record SplitState : Type 0 where
  pub parts : List Text
  pub buffer : Text
  pub blanks : Option Text

-- `none` is a write outside `buffer`, which has `MAX_WORD` bytes.
-- `buffer[buf_idx] = '\0'; parts[(*count)++] = strdup(buffer); buf_idx = 0;`
unfoldable pub save_buffer : SplitState → Option SplitState
save_buffer st = elim (st.buffer) [
  | [] ↦ some st
  | c ∷ cs ↦
      if leb max_word (length (c ∷ cs))
      then none
      else some (record st { parts = st.parts ++ (c ∷ cs) ∷ []; buffer = [] })
]

unfoldable pub save_part : SplitState → Text → SplitState
save_part st part = record st { parts = st.parts ++ part ∷ [] }

-- `buffer[buf_idx++] = word[i]`
unfoldable pub push_letter : SplitState → ℕ → Option SplitState
push_letter st c =
    if leb max_word (length st.buffer)
    then none
    else some (record st { buffer = st.buffer ++ c ∷ [] })

unfoldable pub end_blanks : SplitState → SplitState
unfolding save_part
end_blanks st = elim (st.blanks) [
  | none ↦ st
  | some buf ↦ record (save_part st buf) { blanks = none }
]

unfoldable pub start_blanks : ℕ → SplitState → SplitState
start_blanks c st = record st { blanks = some (c ∷ []) }

infixl 5 ◌>>=◌
abbrev pub ◌>>=◌ : {A B : Type 0} → Option A → (A → Option B) → Option B
none >>= f = none
some a >>= f = f a

-- The branches for a character that is no space, tab or carriage return.
unfoldable pub split_other : SplitState → ℕ → Option SplitState
unfolding save_buffer save_part push_letter
split_other st c =
    if is_newline c
    then (do saved ← save_buffer st; some (save_part saved (c ∷ [])))
    else if is_delimiter c
    then (do saved ← save_buffer st; some (save_part saved (c ∷ [])))
    else push_letter st c

unfoldable pub split_char : SplitState → ℕ → Option SplitState
unfolding save_buffer start_blanks end_blanks split_other add_blank
split_char st c = elim (st.blanks) [
  | some buf ↦
      if is_blank c
      then some (record st { blanks = some (add_blank buf c) })
      else split_other (end_blanks st) c
  | none ↦
      if is_blank c
      then (do saved ← save_buffer st; some (start_blanks c saved))
      else split_other st c
]

unfoldable pub split_loop : SplitState → Text → Option SplitState
unfolding split_char
split_loop st [] = some st
split_loop st (c ∷ cs) = elim (split_char st c) [ none ↦ none | some st' ↦ split_loop st' cs ]

abbrev pub split_start : SplitState
split_start = record { parts = []; buffer = []; blanks = none }

-- `split_by_delimiters`: the parts, or `none` where the buffer overflows.
unfoldable pub split_by_delimiters : Text → Option (List Text)
unfolding split_loop end_blanks save_buffer
split_by_delimiters word = do
  st ← split_loop split_start word
  saved ← save_buffer (end_blanks st)
  some saved.parts
