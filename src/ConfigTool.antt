-- ===== src/ConfigTool.antt =====
-- src/configtool.cpp: what the tool does to a configuration, which is a value of Json.
pub mod Files
pub mod Main
pub mod Targets
pub mod Saved
use instant_send.Prelude.{Bool, true, false, List, [], ◌∷◌, ◌++◌, Bytes, codes, if◌then◌else◌}
use instant_send.Json.Result.{Result}
use instant_send.Json.Syntax.{Json, Items, Fields, arr, obj, no_items, item, no_fields, field}
use instant_send.Json.Float.{FloatOps}
use instant_send.Json.Fields.{map_assign}
use instant_send.Json.Loader.{cfg_read_str}
use instant_send.Json.Array.{add_new}
use instant_send.Json.Object.{Access, found, not_exist, gie, exists, insert_new, clone}
use instant_send.Json.Cast.{
  Attempt, value, raised, endless, Thrown, missing, ◌>>=◌, attempt, as_obj, as_arr, member,
  read_object,
}

module _ {F : Type 0} where
  keys : Fields F → List Bytes
  keys no_fields = []
  keys (field k v m) = k ∷ keys m

  -- `dynamic_cast<jsonObj_t &>(dynamic_cast<jsonObj_t &>(*cfg).gie(name))`
  unfoldable pub section : Bytes → Json F → Attempt (Fields F)
  section name cfg = do root ← as_obj cfg; part ← member name root; as_obj part

  -- What the configuration is after the part was changed in its place.
  unfoldable pub with_section : Bytes → Fields F → Json F → Json F
  with_section name part (obj root) = obj (map_assign name (obj part) root)
  with_section name part cfg = cfg

  -- The lines that are printed.
  unfoldable pub list_targets : Json F → Attempt (List Bytes)
  unfolding keys
  list_targets cfg = section (codes "targets") cfg >>= λ targets. value (keys targets)

  unfoldable pub list_groups : Json F → Attempt (List Bytes)
  unfolding keys
  list_groups cfg = section (codes "groups") cfg >>= λ groups. value (keys groups)

  -- `targconf[targname] = targets[targname]`: both sides are `gie`, and the left one is of an object
  -- that is empty.
  unfoldable pub export_target : Bytes → Json F → Attempt (List Bytes)
  export_target name cfg = do
    targets ← section (codes "targets") cfg
    source ← member name targets
    place ← member {F = F} name no_fields
    value []

  -- The loop of `addTargets`, with what it prints.
  unfoldable pub add_all : Fields F → Fields F → Fields F × List Bytes
  add_all no_fields targets = (targets, [])
  add_all (field k v m) targets =
      let skipped = add_all m targets in
      let added = add_all m (insert_new k (clone v) targets).0 in
      if exists k targets
      then (
        skipped.0,
        (codes "Target " ++ k ++ codes " already exists. Use -Ut to update it") ∷ skipped.1,
      )
      else added

  -- The loop of `importTargets`, and that of `addEventPlugin`.
  unfoldable pub import_all : Fields F → Fields F → Fields F
  import_all no_fields targets = targets
  import_all (field k v m) targets = import_all m (insert_new k (clone v) targets).0

  -- The loop of `addWays`.
  unfoldable pub add_each : Items F → Items F → Items F
  add_each no_items ways = ways
  add_each (item v xs) ways = add_each xs (add_new (clone v) ways)

  -- `other` is what `cfgReadFile` gave.
  unfoldable pub import_targets : Attempt (Json F) → Json F → Attempt (Json F)
  import_targets other cfg = do
    theirs ← other
    targets ← section (codes "targets") cfg
    new ← section (codes "targets") theirs
    value (with_section (codes "targets") (import_all new targets) cfg)

  add_ways_of : Json F → Items F → Items F
  add_ways_of (arr xs) ways = add_each xs ways
  add_ways_of wcfg ways = add_new wcfg ways

  -- `gie`, and the value that is inserted where `jsonNotExist` is caught.
  member_or : Bytes → Json F → Fields F → Json F
  member_or name empty root = elim (gie name root) [ found v ↦ v | not_exist k ↦ empty ]

module _ {F : Type 0} (fl : FloatOps F) where
  unfoldable pub add_targets : Bytes → Json F → Attempt (Json F × List Bytes)
  add_targets targconf cfg = do
    tcfg ← attempt (read_object fl targconf)
    targets ← section (codes "targets") cfg
    let (targets2, printed) = add_all tcfg targets
    value (with_section (codes "targets") targets2 cfg, printed)

  unfoldable pub add_ways : Bytes → Bytes → Json F → Attempt (Json F)
  unfolding add_ways_of
  add_ways name waycfg cfg = do
    targets ← section (codes "targets") cfg
    target ← member name targets
    fields ← as_obj target
    old ← member (codes "ways") fields
    ways ← as_arr old
    wcfg ← attempt (cfg_read_str fl waycfg)
    let target2 = obj (map_assign (codes "ways") (arr (add_ways_of wcfg ways)) fields)
    value (with_section (codes "targets") (map_assign name target2 targets) cfg)

  unfoldable pub add_com_plugin : Bytes → Json F → Attempt (Json F)
  unfolding member_or
  add_com_plugin plugconf cfg = do
    root ← as_obj cfg
    plugins ← as_arr (member_or (codes "complugins") (arr no_items) root)
    plugin ← attempt (read_object fl plugconf)
    value (obj (map_assign (codes "complugins") (arr (add_new (obj plugin) plugins)) root))

  unfoldable pub add_event_plugin : Bytes → Json F → Attempt (Json F)
  unfolding member_or
  add_event_plugin plugconf cfg = do
    root ← as_obj cfg
    handlers ← as_obj (member_or (codes "eventhandlers") (obj no_fields) root)
    new ← attempt (read_object fl plugconf)
    value (obj (map_assign (codes "eventhandlers") (obj (import_all new handlers)) root))
