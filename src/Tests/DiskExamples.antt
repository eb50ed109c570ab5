-- ===== src/Tests/DiskExamples.antt =====
-- The theorems about src/sysapi/posix/file.cpp at concrete files.
use mathlib.Core.List.{map}
use mathlib.Core.List.Perm
use instant_send.Prelude.{◌≡◌, refl, some, List, [], ◌∷◌, ◌++◌, arith, codes, Bytes}
use instant_send.Writer.{written, fragment_lt}
use instant_send.Writer.Threads.{System, at_test, pop, release, write, Reach, next}
use instant_send.Transfer.{send_file, send_fragments, fragment_header, receive_file_data, finished}
use instant_send.Json.Object.{insert_val}
use instant_send.Json.Fields.{map_assign, compare_bytes}
use instant_send.Json.Printer.{print, print_fields, bracket, append_texts, erase_last_two}
use instant_send.Json.Text.{print_str, escape_onto}
use instant_send.Json.Int.{print_int, print_digits}
use instant_send.Transfer.Headers.{hear-fragment, hear-finished}
use instant_send.Disk.{Moved, moved, done, write_data, write_at}
use instant_send.Disk.Write.{write_data-Works}
use instant_send.Disk.Fragments.{write_all}
use instant_send.Disk.Received.{parts_of, place, write_all-received}
use instant_send.Tests.WriterExamples.{three_bytes, about_to_take, about_to_take-Reach}
use instant_send.Tests.JsonRuns.{term_ops}

write_data-Works_example :
    (rest : List Moved) × (write_data (moved 1 ∷ moved 9 ∷ moved 1 ∷ []) 2 (codes "abc") (codes "x")
      ≡ done (write_at 2 (codes "abc") (codes "x")) rest)
write_data-Works_example =
    write_data-Works (moved 1 ∷ moved 9 ∷ moved 1 ∷ []) 2 (codes "abc") (codes "x")
      (omega arith, (omega arith, (omega arith, tt))) (omega arith) (omega arith)

-- The writer behind its first fragment.
abbrev all_written : System
all_written = record about_to_take {
  writer = written three_bytes (record (about_to_take.writer) { queue = []; in_sem = 32 });
  run = at_test;
  done = three_bytes ∷ [];
}

all_written-Reach : Reach 3 all_written
unfolding written fragment_lt
all_written-Reach =
    next
      (next (next about_to_take-Reach (pop _ [] [] three_bytes refl refl (refl, tt)))
        (release _ three_bytes refl))
      (write _ three_bytes refl)

abbrev messages : List Bytes
messages = (fragment_header term_ops 0 ++ 0 ∷ 1 ∷ 2 ∷ 3 ∷ []) ∷ finished (7 ∷ 0 ∷ 8 ∷ 9 ∷ []) ∷ []

messages-sent : send_file term_ops (1 ∷ 2 ∷ 3 ∷ []) (7 ∷ 0 ∷ 8 ∷ 9 ∷ []) ≡ some messages
unfolding send_file send_fragments fragment_header insert_val map_assign compare_bytes print
    print_fields bracket append_texts erase_last_two print_str escape_onto print_int print_digits
messages-sent = refl

messages-parts : parts_of (receive_file_data term_ops messages) ≡ (0, 1 ∷ 2 ∷ 3 ∷ []) ∷ []
unfolding parts_of receive_file_data
messages-parts =
    rw
      (
        hear-fragment term_ops 0 (1 ∷ 2 ∷ 3 ∷ []) (omega arith),
        hear-finished term_ops (7 ∷ 0 ∷ 8 ∷ 9 ∷ []),
      )
      refl

write_all-received_example : write_all (map place (three_bytes ∷ [])) (codes "ab") ≡ 1 ∷ 2 ∷ 3 ∷ []
unfolding written
write_all-received_example =
    write_all-received term_ops (1 ∷ 2 ∷ 3 ∷ []) (7 ∷ 0 ∷ 8 ∷ 9 ∷ []) (codes "ab") messages 3
      all_written (omega arith) messages-sent all_written-Reach refl refl
      (rw messages-parts (Perm.refl _)) (omega arith)
