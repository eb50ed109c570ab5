-- ===== src/ConfigTool/Main.antt =====
-- src/configtool.cpp: `changeCfg` and `main`.
pub mod Changes
pub mod Ends
use instant_send.Prelude.{
  ℕ, zero, suc, Bool, true, false, ◌||◌, Option, none, some, List, [], ◌∷◌, ◌++◌, Bytes, codes,
  if◌then◌else◌, length,
}
use instant_send.Paths.{combine_path}
use instant_send.Json.Syntax.{Json, obj, no_fields, field}
use instant_send.Json.Float.{FloatOps}
use instant_send.Json.Loader.{bytes_eq}
use instant_send.Json.Cast.{Attempt, value, raised, endless, Thrown}
use instant_send.ConfigTool.{
  list_targets, list_groups, export_target, add_targets, add_ways, import_targets, add_com_plugin,
  add_event_plugin,
}
use instant_send.ConfigTool.Files.{Files, cfg_read_file, save_cfg}

-- The variables of `main`, the files, and what was printed. `cfg` is `none` while it is NULL.
pub record Tool (F : Type 0) : Type 0 where
  pub cfg : Option (Json F)
  pub cfgpath : Bytes
  pub save : Bool
  pub load : Bool
  pub files : Files
  pub printed : List Bytes

-- `main` returns a code, or it ends with an exception that nothing catches, a NULL reference, or
-- never.
pub data Exit (F : Type 0) : Type 0 where
  returned : ℕ → Tool F → Exit F
  uncaught : Thrown → Exit F
  null_reference endless_loop : Exit F

-- A step of the loop goes on with the state and the arguments that are left.
pub data Round (F : Type 0) : Type 0 where
  goes : Tool F → List Bytes → Round F
  ends : Exit F → Round F

-- `string(argv[i]) == long || string(argv[i]) == short`
abbrev is : Bytes → Bytes → Bytes → Bool
is arg long short = bytes_eq arg long || bytes_eq arg short

-- The chain of `if` in the loop.
pub data Flag : Type 0 where
  help_flag init_client_flag init_server_flag targets_flag groups_flag export_flag add_flag way_flag
        import_flag com_plugin_flag event_plugin_flag client_flag server_flag config_flag
        other_flag :
      Flag

unfoldable pub flag_of : Bytes → Flag
flag_of arg =
    if is arg (codes "--help") (codes "-h")
    then help_flag
    else if is arg (codes "--init-client") (codes "-ic")
    then init_client_flag
    else if is arg (codes "--init-server") (codes "-is")
    then init_server_flag
    else if is arg (codes "--list-targets") (codes "-T")
    then targets_flag
    else if is arg (codes "--list-groups") (codes "-G")
    then groups_flag
    else if is arg (codes "--export-target") (codes "-Et")
    then export_flag
    else if is arg (codes "--add-targets") (codes "-At")
    then add_flag
    else if is arg (codes "--add-way") (codes "-Aw")
    then way_flag
    else if is arg (codes "--import-targets") (codes "-It")
    then import_flag
    else if is arg (codes "--add-com-plugin") (codes "-Acp")
    then com_plugin_flag
    else if is arg (codes "--add-event-plugin") (codes "-Aep")
    then event_plugin_flag
    else if is arg (codes "--client") (codes "-C")
    then client_flag
    else if is arg (codes "--server") (codes "-S")
    then server_flag
    else if is arg (codes "--config") (codes "-c")
    then config_flag
    else other_flag

module _ {F : Type 0} (fl : FloatOps F) (opens : Bytes → Bool) (homedir : Option Bytes) where
  after : {A : Type 0} → Attempt A → (A → Round F) → Round F
  after (value a) f = f a
  after (raised e) f = ends (uncaught e)
  after endless f = ends endless_loop

  -- `*cfg`; where `cfg` is NULL nothing is looked at before it is used.
  with_cfg : Tool F → (Json F → Round F) → Round F
  with_cfg t f = elim (t.cfg) [ none ↦ ends null_reference | some c ↦ f c ]

  -- An operation that prints, and one that sets `save`.
  show : Tool F → List Bytes → (Json F → Attempt (List Bytes)) → Round F
  unfolding after with_cfg
  show t rest f =
      with_cfg t λ c. after (f c) λ ls. goes (record t { printed = t.printed ++ ls }) rest

  edit : Tool F → List Bytes → (Json F → Attempt (Json F × List Bytes)) → Round F
  unfolding after with_cfg
  edit t rest f = with_cfg t λ c.
      after (f c)
        λ (c2, ls). goes (record t { cfg = some c2; save = true; printed = t.printed ++ ls }) rest

  quietly : Attempt (Json F) → Attempt (Json F × List Bytes)
  quietly (value c) = value (c, [])
  quietly (raised e) = raised e
  quietly endless = endless

  -- `if(save) saveCfg(*cfg, cfgpath)`
  abbrev saved_files : Option (Json F) → Bool → Bytes → Files → Files
  saved_files (some c) true path files = save_cfg fl opens c path files
  saved_files _ _ path files = files

  unfoldable pub save_if : Tool F → Tool F
  save_if t = record t { files = saved_files (t.cfg) (t.save) (t.cfgpath) (t.files) }

  unfoldable pub init_cfg : Json F → Tool F → Tool F
  init_cfg c t = record (save_if t) { cfg = some c; save = true; load = false }

  unfoldable pub change_cfg : Bytes → Tool F → List Bytes → Round F
  unfolding after
  change_cfg newpath t rest =
      let saved = save_if t in
      if t.load
      then after (cfg_read_file fl newpath saved.files)
          (λ c. goes (record saved { cfg = some c; save = false; cfgpath = newpath }) rest)
      else goes (record t { load = true; cfgpath = newpath }) rest

  abbrev refuse : Tool F → Bytes → Round F
  refuse t line = ends (returned 1 (record t { printed = t.printed ++ line ∷ [] }))

  too_few : Tool F → Round F
  too_few t = refuse t (codes "Not enough arguments!")

  from_home : Bytes → Tool F → List Bytes → Round F
  from_home name t rest = elim homedir [
    | none ↦ refuse t (codes "Config not found!")
    | some home ↦ change_cfg (combine_path home name) t rest
  ]

  -- With the next argument.
  unfoldable pub one : Tool F → List Bytes → (Bytes → List Bytes → Round F) → Round F
  unfolding too_few
  one t [] f = too_few t
  one t (a ∷ rest) f = f a rest

  two : Tool F → List Bytes → (Bytes → Bytes → List Bytes → Round F) → Round F
  unfolding too_few
  two t (a ∷ b ∷ rest) f = f a b rest
  two t _ f = too_few t

  -- What is done on each. The text that `--help` prints is left out.
  unfoldable pub perform : Flag → Tool F → List Bytes → Round F
  unfolding show edit quietly one two from_home
  perform help_flag t rest = goes t rest
  perform init_client_flag t rest =
      goes (init_cfg (obj (field (codes "targets") (obj no_fields) no_fields)) t) rest
  perform init_server_flag t rest = goes (init_cfg (obj no_fields) t) rest
  perform targets_flag t rest = show t rest list_targets
  perform groups_flag t rest = show t rest list_groups
  perform export_flag t rest = one t rest (λ name more. show t more (export_target name))
  perform add_flag t rest = one t rest (λ text more. edit t more (add_targets fl text))
  perform way_flag t rest =
      two t rest (λ name text more. edit t more (λ c. quietly (add_ways fl name text c)))
  perform import_flag t rest =
      one t rest
        (λ path more. edit t more (λ c. quietly (import_targets (cfg_read_file fl path t.files) c)))
  perform com_plugin_flag t rest =
      one t rest (λ text more. edit t more (λ c. quietly (add_com_plugin fl text c)))
  perform event_plugin_flag t rest =
      one t rest (λ text more. edit t more (λ c. quietly (add_event_plugin fl text c)))
  perform client_flag t rest = from_home (codes "client.cfg") t rest
  perform server_flag t rest = from_home (codes "server.cfg") t rest
  perform config_flag t rest = one t rest (λ path more. change_cfg path t more)
  perform other_flag t rest = goes t rest

  unfoldable pub round : Tool F → Bytes → List Bytes → Round F
  round t arg rest = perform (flag_of arg) t rest

  -- The loop, which takes an argument at least in each round, so that the fuel does not run out, and
  -- the end of `main`.
  unfoldable pub run : ℕ → Tool F → List Bytes → Exit F
  run fuel t [] = returned 0 (save_if t)
  run zero t (arg ∷ rest) = endless_loop
  run (suc fuel) t (arg ∷ rest) = elim (round t arg rest) [
    | goes t2 more ↦ run fuel t2 more
    | ends e ↦ e
  ]

  abbrev pub first_state : Files → Tool F
  first_state files = record {
    cfg = none;
    cfgpath = [];
    save = false;
    load = true;
    files = files;
    printed = [];
  }

  unfoldable pub main : Files → List Bytes → Exit F
  main files args = run (length args) (first_state files) args
