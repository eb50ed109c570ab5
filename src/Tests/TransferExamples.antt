-- ===== src/Tests/TransferExamples.antt =====
-- The theorems about src/datareceiver.cpp and src/client.cpp at concrete messages.
use instant_send.Prelude.{◌≡◌, refl, ◌++◌, List, [], ◌∷◌, arith, codes, some, Bytes}
use instant_send.Transfer.{receive_file_data, send_file, finished}
use instant_send.Transfer.Delivery.{Delivers, send_file-Delivers}
use instant_send.Transfer.Release.{EndsOnce, receive_file_data-EndsOnce}
use instant_send.Transfer.Offer.{answer, offer, reject, answer-offer}
use instant_send.Paths.{path_is_unsafe, scan_path, dots}
use instant_send.Transfer.Offer.{offer_fields}
use instant_send.Json.Object.{insert_new}
use instant_send.Json.Fields.{map_insert, compare_bytes}
use instant_send.Json.Printer.{print, bracket, append_texts, erase_last_two}
use instant_send.Json.Text.{print_str, escape_onto}
use instant_send.Json.Int.{print_int, print_digits}
use instant_send.Tests.JsonRuns.{term_ops}

abbrev four_bytes : Bytes
four_bytes = 7 ∷ 0 ∷ 8 ∷ 9 ∷ []

send_file-Delivers_example :
    (ms : List Bytes) × (send_file term_ops (codes "hello") four_bytes ≡ some ms)
    × Delivers 0 (codes "hello") (receive_file_data term_ops ms)
send_file-Delivers_example = send_file-Delivers term_ops (codes "hello") four_bytes (omega arith)

receive_file_data-EndsOnce_example :
    EndsOnce (receive_file_data term_ops (finished four_bytes ∷ codes "[" ∷ []))
receive_file_data-EndsOnce_example =
    receive_file_data-EndsOnce term_ops (finished four_bytes ∷ codes "[" ∷ [])

abbrev climbing : Bytes
climbing =
    codes "{\"filename\" : \"a\\/..\\/b\", \"filesize\" : 5, \"service\" : \"filetransfer\"}"
    ++ 0 ∷ []

climbing-offer : offer term_ops (codes "a/../b") 5 ≡ some climbing
unfolding offer offer_fields insert_new map_insert compare_bytes print bracket append_texts
    erase_last_two print_str escape_onto print_int print_digits
climbing-offer = refl

answer-offer_example : answer term_ops (codes "/srv") climbing ≡ reject
unfolding path_is_unsafe scan_path dots
answer-offer_example =
    answer-offer term_ops (codes "a/../b") 5 (codes "/srv") climbing (ground arith) (omega arith)
      climbing-offer (omega arith)
