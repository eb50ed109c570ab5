-- ===== src/Plugins.antt =====
-- src/plugin.h, src/pluginlist.cpp, src/pluginloader.cpp: the libraries that are loaded, with their
-- counted references.
pub mod Used
use instant_send.Prelude.{
  ℕ, zero, suc, ◌+◌, ◌-◌, ◌^◌, Bool, true, false, ◌&&◌, List, [], ◌∷◌, ◌++◌, Option, none, some,
  ◌==◌, if◌then◌else◌, Bytes,
}
use instant_send.Json.Loader.{bytes_eq}

-- A plugin that is loaded: `refCnt`, the number of its instances, and whether its creator is a
-- `connectionCreator_t`. `unloadPossible` says that there is no instance.
pub record Handle : Type 0 where
  pub ref_cnt : ℕ
  pub instances : ℕ
  pub connects : Bool

-- `storage` is a map from names. `locked` says that `modifyMutex` is held.
pub record Plugins : Type 0 where
  pub storage : Bytes → Option Handle
  pub locked : Bool

-- A call returns, or throws, or waits for the mutex for ever.
pub data Call : Type 0 where
  back throws : Plugins → Call
  blocks : Call

abbrev pub put : Bytes → Option Handle → Plugins → Plugins
put name o s = record s { storage = λ p. if bytes_eq p name then o else s.storage p }

-- `plugin->second.isUnloadable()`
abbrev pub is_unloadable : Handle → Bool
is_unloadable h = h.ref_cnt == 0 && h.instances == 0

unfoldable pub check_unload : Bytes → Plugins → Call
check_unload name s = if s.locked then blocks else elim (s.storage name) [
  | none ↦ back s
  | some h ↦ if is_unloadable h then back (put name none s) else back s
]

abbrev pub inc_rc : Handle → Handle
inc_rc h = record h { ref_cnt = h.ref_cnt + 1 }

-- `--refCnt`
abbrev pub dec_rc : Handle → Handle
dec_rc h = record h { ref_cnt = if h.ref_cnt == 0 then 2 ^ 32 - 1 else h.ref_cnt - 1 }

abbrev pub add_instance : Handle → Handle
add_instance h = record h { instances = h.instances + 1 }

-- The destructors of `BPluginRef` and of `PluginPtr`: `if(mHandle->decRC()) mHandle->onUnload()`.
unfoldable pub release : Bytes → Plugins → Call
release name s = elim (s.storage name) [
  | none ↦ back s
  | some h ↦
      let s2 = put name (some (dec_rc h)) s in
      if is_unloadable (dec_rc h) then check_unload name s2 else back s2
]

-- `tryLoad` opens a library: it is `none` if that fails, and says whether the creator is a
-- `connectionCreator_t`.
module _ (try_load : Bytes → Option Bool) (extension : Bytes) where
  abbrev pub get_full_name : Bytes → Bytes → Bytes
  get_full_name path name = path ++ b'/' ∷ name ++ extension

  -- `none` is the exception behind the loop.
  unfoldable pub load_plugin : List Bytes → Bytes → Option Bool
  load_plugin [] name = none
  load_plugin (path ∷ paths) name = elim (try_load (get_full_name path name)) [
    | some connects ↦ some connects
    | none ↦ load_plugin paths name
  ]

  -- `pluginList_t::operator[]`, and the reference that it returns. The exception of `loadPlugin` is
  -- thrown on before `modifyUnlock`.
  unfoldable pub plugin_at : List Bytes → Bytes → Plugins → Call
  plugin_at paths name s = if s.locked then blocks else elim (s.storage name) [
    | some h ↦ back (put name (some (inc_rc h)) s)
    | none ↦ elim (load_plugin paths name) [
      | none ↦ throws (record s { locked = true })
      | some c ↦ back (put name (some (record { ref_cnt = 1; instances = 0; connects = c })) s)
    ]
  ]

-- `BPluginRef::as<connectionCreator_t>`
unfoldable pub as_creator : Bytes → Plugins → Call
as_creator name s = elim (s.storage name) [
  | none ↦ throws s
  | some h ↦ if h.connects then back (put name (some (inc_rc h)) s) else throws s
]

-- The constructor of `pluginInstance_t` counts the instance.
unfoldable pub counted : Bytes → Plugins → Plugins
counted name s = elim (s.storage name) [ none ↦ s | some h ↦ put name (some (add_instance h)) s ]

-- `pluginInstanceAutoPtr::reset`: the instance is deleted and no longer counted, and its creator asks
-- whether it is the last one.
unfoldable pub reset : Bytes → Plugins → Call
reset name s = elim (s.storage name) [
  | none ↦ back s
  | some h ↦
      let fewer : Handle = record h {
        instances = if h.instances == 0 then 2 ^ 32 - 1 else h.instances - 1;
      } in
      let s2 = put name (some fewer) s in
      if fewer.instances == 0 then check_unload name s2 else back s2
]
