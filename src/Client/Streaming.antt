-- ===== src/Client/Streaming.antt =====
-- client.c and ss.c: what a client shows of a stream.
use docs_plus_plus.Base.{
  ℕ, suc, ◌-◌, ◌<◌, ◌≡◌, refl, sym, ap, subst, ◌∙◌, inl, inr, ℤ, pos, Bool, true, false, not, ◌||◌,
  ◌&&◌, some, List, [], ◌∷◌, ◌++◌, map, concat, concat-append, append_assoc, append-nil, Text, ltb,
  ◌==◌, if◌then◌else◌, length, length-append, take, take_of_length-le, Bool-cases, arith,
}
use docs_plus_plus.Codes.{max_buffer}
use docs_plus_plus.Document.{Sentence, is_delimiter_token}
use docs_plus_plus.Document.Parse.{parse_file}
use docs_plus_plus.Document.Content.{blanks_fit, concat-parse_file}
use docs_plus_plus.Wire.{Message, init_message}
use docs_plus_plus.Client.Redirections.{stream_text}
use docs_plus_plus.Storage.Sessions.{Env, file_path}
use docs_plus_plus.Storage.Commits.Queues.{parse_path_lem}
use docs_plus_plus.Storage.Server.{Server}
use docs_plus_plus.Storage.Requests.{StreamWord, stream_words, stream_sentences, stream_file_ss}
use docs_plus_plus.Storage.Requests.Stream.{data_kind, send_words, stream_request}

-- The text without its spaces and newlines.
unfoldable pub ink : Text → Text
ink [] = []
ink (c ∷ cs) = if c == b' ' || c == 10 then ink cs else c ∷ ink cs

ink-append : (a b : Text) → ink (a ++ b) ≡ ink a ++ ink b
unfolding ink
ink-append [] b = refl
ink-append (c ∷ a) b = elim (Bool-cases (c == b' ' || c == 10)) [
  | inl gap ↦ rw (gap, ink) (ink-append a b)
  | inr plain ↦ rw (plain, ink) (ap (λ t. c ∷ t) (ink-append a b))
]

-- The bytes that the messages of words make the client show.
payloads : List StreamWord → Text
payloads [] = []
payloads (w ∷ ws) = (w.payload ++ (if w.status then b' ' ∷ [] else [])) ++ payloads ws

stream_text-send_words :
    (msg : Message) (ws : List StreamWord)
    → msg.kind ≡ data_kind
    → stream_text (map some (send_words msg ws)) ≡ payloads ws ++ 10 ∷ []
unfolding stream_text send_words payloads
stream_text-send_words msg [] e = refl
stream_text-send_words msg (w ∷ ws) e = elim (Bool-cases w.status) [
  | inl space ↦
      rw (e, space)
        (ap (λ t. (w.payload ++ b' ' ∷ []) ++ t) (stream_text-send_words (next (pos 1)) ws refl)
          ∙ sym (append_assoc (w.payload ++ b' ' ∷ []) (payloads ws) (10 ∷ [])))
  | inr dense ↦
      rw (e, dense)
        (ap (λ t. (w.payload ++ []) ++ t) (stream_text-send_words (next (pos 0)) ws refl)
          ∙ sym (append_assoc (w.payload ++ []) (payloads ws) (10 ∷ [])))
]
  where
    next : ℤ → Message
    next status = record msg {
      kind = data_kind;
      payload = w.payload;
      status = status;
      sentence_index = pos w.sentence_index;
      word_index = pos w.word_index;
    }

-- No token is longer than what a message holds.
abbrev AreShort : List Text → Type 0
AreShort [] = Unit {0}
AreShort (t ∷ ts) = (length t < max_buffer) × AreShort ts

ink-payload :
    (t : Text) (space : Bool)
    → length t < max_buffer
    → ink (take (max_buffer - 1) t ++ (if space then b' ' ∷ [] else [])) ≡ ink t
unfolding ink
ink-payload t true short =
    ink-append (take (max_buffer - 1) t) (b' ' ∷ [])
    ∙ append-nil (ink (take (max_buffer - 1) t))
    ∙ ap ink (take_of_length-le (max_buffer - 1) t (omega (arith, short)))
ink-payload t false short = ap ink (
    append-nil (take (max_buffer - 1) t)
    ∙ take_of_length-le (max_buffer - 1) t (omega (arith, short)))

ink-stream_words :
    (i : ℕ) (more : Bool) (j : ℕ) (ws : List Text)
    → AreShort ws
    → ink (payloads (stream_words i more j ws)) ≡ ink (concat ws)
unfolding stream_words payloads
ink-stream_words i more j [] short = refl
ink-stream_words i more j (w ∷ []) (short, rest) =
    ink-append (take (max_buffer - 1) w ++ (if more then b' ' ∷ [] else [])) []
    ∙ ap (λ t. t ++ ink []) (ink-payload w more short)
    ∙ sym (ink-append w [])
ink-stream_words i more j (w ∷ v ∷ ws) (short, rest) =
    let space = not (is_delimiter_token w) && not (is_delimiter_token v) in
    ink-append (take (max_buffer - 1) w ++ (if space then b' ' ∷ [] else []))
      (payloads (stream_words i more (suc j) (v ∷ ws)))
    ∙ ap (λ t. t ++ ink (payloads (stream_words i more (suc j) (v ∷ ws))))
        (ink-payload w space short)
    ∙ ap (λ t. ink w ++ t) (ink-stream_words i more (suc j) (v ∷ ws) rest)
    ∙ sym (ink-append w (concat (v ∷ ws)))

payloads-append : (a b : List StreamWord) → payloads (a ++ b) ≡ payloads a ++ payloads b
unfolding payloads
payloads-append [] b = refl
payloads-append (w ∷ a) b =
    ap (λ t. (w.payload ++ (if w.status then b' ' ∷ [] else [])) ++ t) (payloads-append a b)
    ∙ sym
        (append_assoc (w.payload ++ (if w.status then b' ' ∷ [] else [])) (payloads a) (payloads b))

AreShort-parts : (a b : List Text) → AreShort (a ++ b) → AreShort a × AreShort b
AreShort-parts [] b short = (tt, short)
AreShort-parts (t ∷ a) b (one, rest) =
    let (first, second) = AreShort-parts a b rest in ((one, first), second)

ink-stream_sentences :
    (i : ℕ) (ss : List Sentence)
    → AreShort (concat ss)
    → ink (payloads (stream_sentences i ss)) ≡ ink (concat (concat ss))
unfolding stream_sentences payloads
ink-stream_sentences i [] short = refl
ink-stream_sentences i (s ∷ ss) short =
    let (here, there) = AreShort-parts s (concat ss) short in
    let words = stream_words i (ltb 0 (length ss)) 0 s in
    ap ink (payloads-append words (stream_sentences (suc i) ss))
    ∙ ink-append (payloads words) (payloads (stream_sentences (suc i) ss))
    ∙ ap (λ t. t ++ ink (payloads (stream_sentences (suc i) ss)))
        (ink-stream_words i (ltb 0 (length ss)) 0 s here)
    ∙ ap (λ t. ink (concat s) ++ t) (ink-stream_sentences (suc i) ss there)
    ∙ sym (ink-append (concat s) (concat (concat ss)))
    ∙ ap ink (sym (concat-append s (concat ss)))

-- No token is longer than all together.
concat-AreShort : (ts : List Text) → length (concat ts) < max_buffer → AreShort ts
concat-AreShort [] h = tt
concat-AreShort (t ∷ ts) h = (
  omega (arith, h, length-append t (concat ts)),
  concat-AreShort ts (omega (arith, h, length-append t (concat ts))),
)

-- A client that streams a file, and gets all messages, shows the file up to spaces and newlines: no
-- other byte is added or lost, and their order is the file's. The file is there, is shorter than
-- 8192 bytes, and no run of its blanks is longer than the buffer of the parser.
pub stream_text-stream_request :
    (env : Env) (sv : Server) (filename bytes : Text)
    → sv.disk (file_path env filename) ≡ some bytes
    → blanks_fit 0 bytes ≡ true
    → length bytes < max_buffer
    → ink (stream_text (map some (stream_request env sv filename))) ≡ ink bytes
unfolding stream_request stream_file_ss stream_text init_message ink
stream_text-stream_request env sv filename bytes at fit short =
    let sentences = parse_file bytes in
    let whole = concat-parse_file bytes fit in
    let words = stream_sentences 0 sentences in
    let tokens =
      concat-AreShort (concat sentences)
        (subst (λ (t : Text). length t < max_buffer) (sym whole) short) in
    rw (parse_path_lem sv.disk (file_path env filename) bytes at, stream_request, stream_file_ss)
      (ap ink (stream_text-send_words (record init_message { kind = data_kind }) words refl)
        ∙ ink-append (payloads words) (10 ∷ [])
        ∙ append-nil (ink (payloads words))
        ∙ ink-stream_sentences 0 sentences tokens
        ∙ ap ink whole)
