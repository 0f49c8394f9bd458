-- ===== src/Witnesses/Typing.antt =====
-- client.c at concrete inputs.
use docs_plus_plus.Base.{◌≡◌, pos, List, [], ◌∷◌, ◌++◌, Text, codes, decimal, digits_before, arith}
use docs_plus_plus.Wire.{Message, init_message}
use docs_plus_plus.Wire.Transport.{Frame}
use docs_plus_plus.Client.Exchanges.{about_file}
use docs_plus_plus.Client.{write, read_input, fgets}
use docs_plus_plus.Client.Typing.{typed, type_byte}
use docs_plus_plus.Client.Typing.Lines.{typed_line, read_input-typed}

-- A newline, a backslash, a space and `b`.
abbrev broken_line : Text
broken_line = 10 ∷ 92 ∷ 32 ∷ []

read_input-typed_example :
    read_input (fgets (typed_line 12 (broken_line ++ 98 ∷ [])))
    ≡ write (pos 12) (broken_line ++ 98 ∷ [])
unfolding decimal digits_before typed type_byte
read_input-typed_example =
    read_input-typed 12 broken_line 98 (ground arith) (omega arith) (omega arith)

abbrev some_words : List Text
some_words = codes "READ" ∷ codes "n" ∷ []

-- The message of `READ n`, typed by `a`.
abbrev read_message : Message
unfolding init_message
read_message = about_file (codes "a") 3 (codes "n")

abbrev read_frame : Frame
read_frame = record { head = 4; len = 29; bytes = codes "3|200|a|n|||-1|-1|-1|0|0|0|||" }
