-- ===== src/Tests/CallExamples.antt =====
-- The theorems about `FileAppend` and `PolarString` at concrete bytes.
use nvm_kv.Prelude.{◌≡◌, arith, List, [], ◌∷◌, Bytes, lex, same}
use nvm_kv.Polar.{of_buffer, to_string, compare, equals}
use nvm_kv.Polar.Order.{compare-lex, equals-same}
use nvm_kv.Posix.{Io, transfer, eintr, failed, opened, file_append}
use nvm_kv.Posix.Append.{WrotePart, Wrote, file_append-WrotePart, file_append-Wrote}

abbrev abc : Bytes
abc = b'a' ∷ b'b' ∷ b'c' ∷ []

abbrev abd : Bytes
abd = b'a' ∷ b'b' ∷ b'd' ∷ []

-- Two bytes, a signal, and an error
abbrev failing : List Io
failing = transfer 1 ∷ eintr ∷ failed ∷ []

-- The bytes in three calls, with a signal between them
abbrev slow : List Io
slow = transfer 0 ∷ eintr ∷ transfer 0 ∷ transfer 7 ∷ []

file_append-WrotePart_example : WrotePart abd abc (file_append opened failing abd abc)
file_append-WrotePart_example = file_append-WrotePart opened failing abd abc

file_append-Wrote_example : Wrote abd abc slow (file_append opened slow abd abc)
file_append-Wrote_example = file_append-Wrote slow abd abc tt (omega arith)

compare-lex_example :
    compare (of_buffer abc 2) (of_buffer abd 3)
    ≡ lex (to_string (of_buffer abc 2)) (to_string (of_buffer abd 3))
compare-lex_example =
    compare-lex (of_buffer abc 2) (of_buffer abd 3) (unfold of_buffer in omega arith)
      (unfold of_buffer in omega arith)

equals-same_example :
    equals (of_buffer abc 2) (of_buffer abd 2)
    ≡ same (to_string (of_buffer abc 2)) (to_string (of_buffer abd 2))
equals-same_example =
    equals-same (of_buffer abc 2) (of_buffer abd 2) (unfold of_buffer in omega arith)
      (unfold of_buffer in omega arith)
