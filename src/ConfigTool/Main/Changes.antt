-- ===== src/ConfigTool/Main/Changes.antt =====
-- src/configtool.cpp: what the options of `main` may do to its configuration and its files.
use instant_send.Prelude.{◌≡◌, Bool, true, false, Option, none, some, List, [], ◌∷◌, Bytes}
use instant_send.Json.Syntax.{Json}
use instant_send.Json.Float.{FloatOps}
use instant_send.Json.Printer.{print}
use instant_send.Json.Cast.{value}
use instant_send.ConfigTool.Files.{Files, temporary, cfg_read_file}
use instant_send.ConfigTool.Main.{Tool}

-- The file that has what is saved to a path.
abbrev pub saved_to : Bytes → Bytes
saved_to [] = temporary []
saved_to (c ∷ cs) = c ∷ cs

module _ {F : Type 0} (fl : FloatOps F) where
  -- A configuration that is to be saved is in its file; with none, or one that has not changed, no file
  -- has changed.
  unfoldable pub StoredIf : Option (Json F) → Bool → Bytes → Files → Files → Type 0
  StoredIf (some c) true path before after = after (saved_to path) ≡ some (print fl c)
  StoredIf none save path before after = after ≡ before
  StoredIf (some c) false path before after = after ≡ before

  abbrev pub Stored : Tool F → Files → Type 0
  Stored t after = StoredIf t.cfg t.save t.cfgpath t.files after

  -- What an option does. A configuration that is edited is one to save, a path is only taken where a
  -- configuration was made for it, and a configuration is replaced when it is stored.
  pub data Change (t : Tool F) : Tool F → Type 0 where
    shown : (ls : List Bytes) → Change t (record t { printed = ls })
    edited :
        (c : Json F) (ls : List Bytes)
        → Change t (record t { cfg = some c; save = true; printed = ls })
    named : (path : Bytes) → t.load ≡ false → Change t (record t { load = true; cfgpath = path })
    made :
        (c : Json F) (after : Files)
        → Stored t after
        → Change t (record t { cfg = some c; save = true; load = false; files = after })
    loaded :
        (c : Json F) (path : Bytes) (after : Files)
        → Stored t after
        → t.load ≡ true
        → cfg_read_file fl path after ≡ value c
        → Change t (record t { cfg = some c; save = false; cfgpath = path; files = after })

  pub data Changes : Tool F → Tool F → Type 0 where
    none_made : {t : Tool F} → Changes t t
    then_made : {t u v : Tool F} → Change t u → Changes u v → Changes t v
