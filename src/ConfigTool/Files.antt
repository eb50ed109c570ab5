-- ===== src/ConfigTool/Files.antt =====
-- src/json.cpp: `cfgReadFile`. src/configtool.cpp: `saveCfg`. The files are a function from a path to
-- the contents.
use instant_send.Prelude.{
  ℕ, zero, suc, Bool, Option, none, some, [], ◌∷◌, ◌++◌, Bytes, length, take, drop, codes,
  if◌then◌else◌,
}
use instant_send.CString.{c_string}
use instant_send.Json.Syntax.{Json}
use instant_send.Json.Float.{FloatOps}
use instant_send.Json.Loader.{bytes_eq, cfg_read_str}
use instant_send.Json.Printer.{print}
use instant_send.Json.Cast.{Attempt, raised, runtime, attempt}

abbrev pub Files : Type 0
Files = Bytes → Option Bytes

abbrev pub put_file : Bytes → Option Bytes → Files → Files
put_file path contents files p = if bytes_eq p path then contents else files p

abbrev pub sector_size : ℕ
sector_size = 4096

-- The loop of `cfgReadFile`: each sector is taken up to its first NUL. Each round costs a unit.
unfoldable pub sectors : ℕ → Bytes → Bytes
sectors zero rest = []
sectors (suc fuel) [] = []
sectors (suc fuel) (c ∷ cs) =
    c_string (take sector_size (c ∷ cs)) ++ sectors fuel (drop sector_size (c ∷ cs))

-- The name of the file that is written first.
abbrev pub temporary : Bytes → Bytes
temporary file = file ++ codes "_tmp"

-- `rename` of a file that is there. No file has the empty path, and nothing is renamed to it.
unfoldable pub rename : Bytes → Bytes → Files → Files
rename old [] files = files
rename old (c ∷ cs) files = put_file old none (put_file (c ∷ cs) (files old) files)

module _ {F : Type 0} (fl : FloatOps F) where
  unfoldable pub cfg_read_file : Bytes → Files → Attempt (Json F)
  cfg_read_file path files = elim (files path) [
    | none ↦ raised (runtime (codes "Can't access file " ++ path))
    | some contents ↦ attempt (cfg_read_str fl (sectors (length contents) contents))
  ]

  -- `opens` says which files can be opened for writing; what is opened is written, closed and renamed.
  -- Whether the renaming works is not looked at.
  unfoldable pub save_cfg : (Bytes → Bool) → Json F → Bytes → Files → Files
  save_cfg opens cfg file files =
      let written = put_file (temporary file) (some (print fl cfg)) files in
      if opens (temporary file) then rename (temporary file) file written else files
