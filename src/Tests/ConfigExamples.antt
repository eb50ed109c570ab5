-- ===== src/Tests/ConfigExamples.antt =====
-- The theorems about src/configtool.cpp at concrete configurations.
use instant_send.Prelude.{◌≡◌, refl, true, none, some, List, [], ◌∷◌, arith, codes, Bytes}
use instant_send.Json.Syntax.{Json, Fields, int, null, obj, no_fields, field}
use instant_send.Json.Printable.{IsPrintable}
use instant_send.Json.Cast.{value}
use instant_send.ConfigTool.Files.{Files, cfg_read_file, save_cfg}
use instant_send.ConfigTool.Main.{Tool}
use instant_send.ConfigTool.Saved.{cfg_read_file-save_cfg}
use instant_send.Tests.JsonRuns.{Term, term_ops}

abbrev old_targets : Fields Term
old_targets = field (codes "b") null no_fields

abbrev new_targets : Fields Term
new_targets = field (codes "a") null (field (codes "b") (int 2) no_fields)

abbrev configuration : Json Term
configuration = obj (field (codes "targets") (obj old_targets) no_fields)

abbrev no_files : Files
no_files path = none

cfg_read_file-save_cfg_example :
    cfg_read_file term_ops
      (codes "client.cfg")
      (save_cfg term_ops (λ p. true) configuration (codes "client.cfg") no_files)
    ≡ value configuration
unfolding IsPrintable
cfg_read_file-save_cfg_example =
    cfg_read_file-save_cfg term_ops (λ p. true) configuration (codes "client.cfg") no_files
      (ground arith) (omega arith) refl

abbrev arguments : List Bytes
arguments = codes "-ic" ∷ codes "-c" ∷ codes "a.cfg" ∷ []

abbrev before_end : Tool Term
before_end = record {
  cfg = some (obj (field (codes "targets") (obj no_fields) no_fields));
  cfgpath = codes "a.cfg";
  save = true;
  load = true;
  files = no_files;
  printed = [];
}
