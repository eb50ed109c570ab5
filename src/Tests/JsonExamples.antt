-- ===== src/Tests/JsonExamples.antt =====
-- The theorems about src/json.cpp at concrete inputs.
use instant_send.Prelude.{◌≡◌, refl, List, [], ◌∷◌, arith, codes, some, if◌then◌else◌, ◌==◌}
use instant_send.Json.Shared.{
  empty, invalidate, copy_of, Op, own, borrow, copy, destroy, apply_op, run_ops, assign,
}
use instant_send.Json.Shared.Assigned.{assign-dangles}
use instant_send.Json.Shared.Freed.{holders, run_ops-frees}
use instant_send.Json.Result.{ok}
use instant_send.Json.Loader.{cfg_read_str}
use instant_send.Json.Printer.{print}
use instant_send.Json.Printable.{IsPrintable}
use instant_send.Json.Fields.{compare_bytes}
use instant_send.Json.Whole.{cfg_read_str-print}
use instant_send.Json.Text.{parse_str}
use instant_send.Json.Text.Ends.{parse_str-EndsBelow, EndsBelow}
use instant_send.Json.Text.Utf8.{utf8_decode, utf8_decode-code_point_to_utf8}
use instant_send.Json.CodePoint.{code_point_to_utf8}
use instant_send.Tests.JsonRuns.{term_ops, sample}

sample-IsPrintable : IsPrintable sample
unfolding IsPrintable compare_bytes
sample-IsPrintable = ground arith

cfg_read_str-print_example : cfg_read_str term_ops (print term_ops sample) ≡ ok sample
cfg_read_str-print_example = cfg_read_str-print term_ops sample sample-IsPrintable

parse_str-EndsBelow_example : EndsBelow 3 (parse_str (codes "\"\\u"))
parse_str-EndsBelow_example = parse_str-EndsBelow (codes "\"\\u")

utf8_decode-code_point_to_utf8_example : utf8_decode (code_point_to_utf8 0x20ac) ≡ some 0x20ac
utf8_decode-code_point_to_utf8_example = utf8_decode-code_point_to_utf8 0x20ac

-- An item whose container is copied, and both destroyed.
abbrev once : List Op
once = own ∷ copy 0 ∷ destroy 0 ∷ destroy 0 ∷ []

run_ops-frees_example :
    (run_ops once empty).frees 0 ≡ (if holders 0 (run_ops once empty).held == 0 then 1 else 0)
unfolding run_ops apply_op copy_of invalidate
run_ops-frees_example = run_ops-frees once 0 (omega arith) (omega arith)

assign-dangles_example :
    ((apply_op (destroy 0) (assign 0 1 (run_ops (own ∷ borrow ∷ []) empty))).frees 0 ≡ 1)
    × (holders 0 (apply_op (destroy 0) (assign 0 1 (run_ops (own ∷ borrow ∷ []) empty))).held ≡ 1)
unfolding run_ops apply_op
assign-dangles_example = assign-dangles (own ∷ borrow ∷ []) 0 1 0 (omega arith) refl refl refl
