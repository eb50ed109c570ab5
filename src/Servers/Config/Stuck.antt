-- ===== src/Servers/Config/Stuck.antt =====
-- src/server.cpp, src/pluginlist.cpp: a server whose library can not be loaded.
use instant_send.Prelude.{
  ◌⊎◌, inl, inr, ℕ, ◌≡◌, refl, Bool, true, Option, none, some, List, Bytes, Option-cases,
}
use instant_send.Json.Syntax.{Json, Items, no_items, item}
use instant_send.Json.Cast.{Attempt, value, raised, endless}
use instant_send.Plugins.{Plugins, load_plugin, plugin_at}
use instant_send.Plugins.Used.{Ready, plugin_at-free}
use instant_send.Servers.Config.{
  ServerMap, push_back, Constructed, made, thrown, waits, behind, construct, entry_of, kept,
  add_entry, stuck, load_servers,
}
use instant_send.Servers.Config.Stopped.{Fits, go_on, served, construct-Fits}

module _ {F : Type 0} (try_load : Bytes → Option Bool) (extension : Bytes) (paths : List Bytes)
    (new_server : Bytes → Json F → Option ℕ) where
  abbrev pub NamesAt : Attempt (Bytes × Json F) → Type 0 → Type 0
  NamesAt (value e) behind_it = Unit
  NamesAt (raised e) behind_it = behind_it
  NamesAt endless behind_it = ⊥

  -- Some entry names a plugin.
  unfoldable pub Names : Items F → Type 0
  Names no_items = ⊥
  Names (item entry entries) =
      NamesAt (entry_of try_load extension paths new_server entry) (Names entries)

  abbrev pub FailsAt : Attempt (Bytes × Json F) → Type 0 → Type 0 → Type 0
  FailsAt (value (name, config)) fails names =
      ((c : Bool) × (load_plugin try_load extension paths name ≡ some c) × fails)
      ⊎ ((load_plugin try_load extension paths name ≡ none) × names)
  FailsAt (raised e) fails names = fails
  FailsAt endless fails names = ⊥

  -- The libraries can be loaded up to one that can not, with another entry behind it that names a
  -- plugin.
  unfoldable pub Fails : Items F → Type 0
  Fails no_items = ⊥
  Fails (item entry entries) =
      FailsAt (entry_of try_load extension paths new_server entry) (Fails entries) (Names entries)

  construct_locked :
      (name : Bytes) (config : Json F) (s : Plugins)
      → s.locked ≡ true
      → construct try_load extension paths new_server name config s ≡ waits
  unfolding construct plugin_at behind
  construct_locked name config s held = rw (construct, plugin_at, held) refl

  add_locked :
      (a : Attempt (Bytes × Json F)) (s : Plugins) (entries : Items F) (servers : ServerMap)
      (rest : Type 0)
      → s.locked ≡ true
      → (rest → load_servers try_load extension paths new_server entries s servers ≡ stuck)
      → NamesAt a rest
      → go_on try_load extension paths new_server entries
          (add_entry try_load extension paths new_server a s servers)
        ≡ stuck
  unfolding add_entry kept
  add_locked (value (name, config)) s entries servers rest held k n =
      rw (construct_locked name config s held) refl
  add_locked (raised e) s entries servers rest held k n = k n
  add_locked endless s entries servers rest held k n = absurd n

  -- Once the lock is held, the next entry that names a plugin waits for it.
  stuck_locked :
      (entries : Items F) (s : Plugins) (servers : ServerMap)
      → s.locked ≡ true
      → Names entries
      → load_servers try_load extension paths new_server entries s servers ≡ stuck
  unfolding load_servers Names
  stuck_locked no_items s servers held n = absurd n
  stuck_locked (item entry entries) s servers held n =
      add_locked (entry_of try_load extension paths new_server entry) s entries servers
        (Names entries) held (stuck_locked entries s servers held) n

  -- The constructor of a receiver whose library can not be loaded throws with the lock held.
  construct_fails :
      (name : Bytes) (config : Json F) (s : Plugins)
      → load_plugin try_load extension paths name ≡ none
      → Ready try_load extension paths s
      → construct try_load extension paths new_server name config s
        ≡ thrown (record s { locked = true })
  unfolding construct behind
  construct_fails name config s l r = elim (Option-cases (s.storage name)) [
    | inl e ↦
        rw (construct, plugin_at-free try_load extension paths name s r.0 none e, l, behind) refl
    | inr (h, e) ↦ absurd (let there = (r.1 name h e).0 in cc)
  ]

  kept_stuck :
      (name : Bytes) (o : Option ℕ) (c : Constructed) (entries : Items F) (servers : ServerMap)
      → Fits try_load extension paths new_server o c
      → ((t : Plugins) (more : ServerMap)
          → Ready try_load extension paths t
          → load_servers try_load extension paths new_server entries t more ≡ stuck)
      → go_on try_load extension paths new_server entries
          (kept try_load extension paths new_server name c servers)
        ≡ stuck
  unfolding kept
  kept_stuck name (some p) (made q s) entries servers (same, r) k = k s (push_back name q servers) r
  kept_stuck name (some p) (thrown s) entries servers h k = absurd h
  kept_stuck name (some p) waits entries servers h k = absurd h
  kept_stuck name none (made q s) entries servers h k = absurd h
  kept_stuck name none (thrown s) entries servers r k = k s servers r
  kept_stuck name none waits entries servers h k = absurd h

  add_stuck :
      (a : Attempt (Bytes × Json F)) (s : Plugins) (entries : Items F) (servers : ServerMap)
      → Ready try_load extension paths s
      → ((t : Plugins) (more : ServerMap)
          → Ready try_load extension paths t
          → Fails entries
          → load_servers try_load extension paths new_server entries t more ≡ stuck)
      → FailsAt a (Fails entries) (Names entries)
      → go_on try_load extension paths new_server entries
          (add_entry try_load extension paths new_server a s servers)
        ≡ stuck
  unfolding add_entry
  add_stuck (value (name, config)) s entries servers r k (inl (c, l, fails)) =
      kept_stuck name (served try_load extension paths new_server name config (some c)) _ entries
        servers (construct-Fits try_load extension paths new_server name config s c l r)
        (λ t more q. k t more q fails)
  add_stuck (value (name, config)) s entries servers r k (inr (l, names)) =
      rw (construct_fails name config s l r)
        (unfold kept in stuck_locked entries (record s { locked = true }) servers refl names)
  add_stuck (raised e) s entries servers r k n = k s servers r n
  add_stuck endless s entries servers r k n = absurd n

  -- With the lock of the plugins free, when a library of the configuration can not be loaded and another
  -- entry behind it names a plugin, `main` never ends the loading of the servers.
  pub load_servers-stuck :
      (entries : Items F) (s : Plugins) (servers : ServerMap)
      → Ready try_load extension paths s
      → Fails entries
      → load_servers try_load extension paths new_server entries s servers ≡ stuck
  unfolding load_servers Fails
  load_servers-stuck no_items s servers r n = absurd n
  load_servers-stuck (item entry entries) s servers r n =
      add_stuck (entry_of try_load extension paths new_server entry) s entries servers r
        (λ t more q. load_servers-stuck entries t more q) n
