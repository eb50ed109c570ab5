-- ===== src/Client/Ways.antt =====
-- src/client.cpp: which way `findWay` chooses, and what it leaves of the plugins.
use instant_send.Prelude.{
  ℕ, ◌+◌, ◌≡◌, refl, Bool, true, false, List, Option, none, some, Bytes, codes, if◌then◌else◌,
}
use instant_send.Json.Syntax.{Json, Items, Fields, no_items, item}
use instant_send.Json.Object.{Access, found, not_exist, gie}
use instant_send.Json.Cast.{Attempt, value, raised, endless}
use instant_send.Plugins.{Plugins, plugin_at, load_plugin, counted}
use instant_send.Plugins.Used.{
  Ready, release-Ready, plugin_at-Ready, as_creator-true, as_creator-false, counted-Ready,
}
use instant_send.Client.{
  Tried, connected, skipped, stuck, Way, chosen, no_way, hangs, next_way, and_then, release_one,
  release_both, try_client, try_plugin, plugin_of, try_way, find_way,
}

module _ (try_load : Bytes → Option Bool) (extension : Bytes) (paths : List Bytes) where
  release_both-Ready :
      (name : Bytes) (f : Plugins → Tried) (s : Plugins)
      → Ready try_load extension paths s
      → (t : Plugins) × (release_both name f s ≡ f t) × Ready try_load extension paths t
  unfolding release_both release_one and_then
  release_both-Ready name f s r =
      let (t, e, r1) = release-Ready try_load extension paths name s (s.storage name) refl r in
      let (u, e2, r2) = release-Ready try_load extension paths name t (t.storage name) refl r1 in
      (u, rw (release_both, release_one, e, e2) refl, r2)

module _ {F : Type 0} (try_load : Bytes → Option Bool) (extension : Bytes) (paths : List Bytes)
    (connect : Bytes → Json F → Bool) where
  -- A way can be used when its plugin makes connections and makes one with its configuration.
  abbrev usable_config : Bytes → Access (Json F) → Bool
  usable_config name (found c) = connect name c
  usable_config name (not_exist k) = false

  abbrev usable_plugin : Bytes → Fields F → Option Bool → Bool
  usable_plugin name m (some true) = usable_config name (gie (codes "config") m)
  usable_plugin name m _ = false

  abbrev usable : Attempt (Bytes × Fields F) → Bool
  usable (value (name, m)) = usable_plugin name m (load_plugin try_load extension paths name)
  usable _ = false

  -- The plugin that a way names can be loaded.
  abbrev Loads : Attempt (Bytes × Fields F) → Type 0
  Loads (value (name, m)) = (c : Bool) × (load_plugin try_load extension paths name ≡ some c)
  Loads (raised e) = Unit
  Loads endless = ⊥

  abbrev Ends : Bool → Tried → Type 0
  Ends true (connected t) = Ready try_load extension paths t
  Ends false (skipped t) = Ready try_load extension paths t
  Ends _ _ = ⊥

  released :
      (b : Bool) (name : Bytes) (f : Plugins → Tried) (s : Plugins)
      → ((t : Plugins) → Ready try_load extension paths t → Ends b (f t))
      → Ready try_load extension paths s
      → Ends b (release_both name f s)
  released b name f s k r =
      let (t, e, r1) = release_both-Ready try_load extension paths name f s r in rw e (k t r1)

  try_client-Ends :
      (name : Bytes) (m : Fields F) (s : Plugins)
      → Ready try_load extension paths s
      → Ends
          (usable_config name (gie (codes "config") m))
          (try_client try_load extension paths connect name m s)
  unfolding try_client
  try_client-Ends name m s r =
      elim (gie (codes "config") m)
        as (λ g. Ends (usable_config name g) (elim g [
          | not_exist k ↦ release_both name skipped s
          | found config ↦
              if connect name config
              then release_both name connected (counted name s)
              else release_both name skipped s
        ])) [
          | not_exist k ↦ released false name skipped s (λ t q. q) r
          | found c ↦
              elim (connect name c)
                as (λ b. Ends b (
                  if b
                  then release_both name connected (counted name s)
                  else release_both name skipped s)) [
                    | true ↦
                        released true name connected (counted name s) (λ t q. q)
                          (counted-Ready try_load extension paths name s (s.storage name) refl r)
                    | false ↦ released false name skipped s (λ t q. q) r
                  ]
        ]

  try_plugin-Ends :
      (name : Bytes) (m : Fields F) (s : Plugins) (c : Bool)
      → load_plugin try_load extension paths name ≡ some c
      → Ready try_load extension paths s
      → Ends (usable_plugin name m (some c)) (try_plugin try_load extension paths connect name m s)
  unfolding try_plugin and_then release_one
  try_plugin-Ends name m s true l r =
      let (t, e, r1, (h, at, c)) =
        plugin_at-Ready try_load extension paths name s true (s.storage name) refl r l in
      let (u, e2, r2) = as_creator-true try_load extension paths name t h r1 at c in
      rw (try_plugin, e, and_then, e2) (try_client-Ends name m u r2)
  try_plugin-Ends name m s false l r =
      let (t, e, r1, (h, at, c)) =
        plugin_at-Ready try_load extension paths name s false (s.storage name) refl r l in
      let (u, e2, r2) = release-Ready try_load extension paths name t (t.storage name) refl r1 in
      rw
        (
          try_plugin,
          e,
          and_then,
          as_creator-false try_load extension paths name t h at c,
          and_then,
          release_one,
          e2,
        )
        r2

  try_way-Ends :
      (named : Attempt (Bytes × Fields F)) (s : Plugins)
      → Loads named
      → Ready try_load extension paths s
      → Ends (usable named) (try_way try_load extension paths connect named s)
  unfolding try_way
  try_way-Ends (value (name, m)) s (c, l) r = rw l (try_plugin-Ends name m s c l r)
  try_way-Ends (raised e) s l r = r
  try_way-Ends endless s l r = absurd l

  -- The least index of a way that can be used.
  abbrev pub first_usable : ℕ → Items F → Option ℕ
  first_usable i no_items = none
  first_usable i (item way ways) =
      let later = first_usable (i + 1) ways in if usable (plugin_of way) then some i else later

  abbrev pub AllLoad : Items F → Type 0
  AllLoad no_items = Unit
  AllLoad (item way ways) = Loads (plugin_of way) × AllLoad ways

  -- What `findWay` ends with, by the way that it should choose.
  abbrev pub Chooses : Option ℕ → Way → Type 0
  Chooses (some i) (chosen j s) = (i ≡ j) × Ready try_load extension paths s
  Chooses none (no_way s) = Ready try_load extension paths s
  Chooses _ _ = ⊥

  next_way-Chooses :
      (i : ℕ) (ways : Items F) (b : Bool) (t : Tried)
      → Ends b t
      → ((s : Plugins)
          → Ready try_load extension paths s
          → Chooses
              (first_usable (i + 1) ways)
              (find_way try_load extension paths connect (i + 1) ways s))
      → Chooses
          (if b then some i else first_usable (i + 1) ways)
          (next_way i (find_way try_load extension paths connect (i + 1) ways) t)
  unfolding next_way
  next_way-Chooses i ways true (connected s) r k = (refl, r)
  next_way-Chooses i ways true (skipped s) r k = absurd r
  next_way-Chooses i ways true stuck r k = absurd r
  next_way-Chooses i ways false (connected s) r k = absurd r
  next_way-Chooses i ways false (skipped s) r k = k s r
  next_way-Chooses i ways false stuck r k = absurd r

  -- Where the plugins that the ways name can be loaded, `findWay` chooses the first way that can be
  -- used, throws if there is none, and leaves no lock held and no library loaded that nothing uses.
  pub find_way-Chooses :
      (i : ℕ) (ways : Items F) (s : Plugins)
      → AllLoad ways
      → Ready try_load extension paths s
      → Chooses (first_usable i ways) (find_way try_load extension paths connect i ways s)
  unfolding find_way
  find_way-Chooses i no_items s l r = r
  find_way-Chooses i (item way ways) s (l, ls) r =
      next_way-Chooses i ways _ _ (try_way-Ends (plugin_of way) s l r)
        (λ t. find_way-Chooses (i + 1) ways t ls)

  -- When the plugin of a way can not be loaded, the mutex of the plugins stays locked, and `findWay`
  -- never returns if the next way names a plugin.
  find_way_locked :
      (i : ℕ) (first second : Json F) (ways : Items F) (s : Plugins) (name other : Bytes)
      (m n : Fields F)
      → plugin_of first ≡ value (name, m)
      → plugin_of second ≡ value (other, n)
      → s.locked ≡ false
      → s.storage name ≡ none
      → load_plugin try_load extension paths name ≡ none
      → find_way try_load extension paths connect i (item first (item second ways)) s ≡ hangs
  unfolding find_way next_way try_way try_plugin and_then plugin_at
  find_way_locked i first second ways s name other m n e e2 free new broken =
      rw (find_way, e, try_way, try_plugin, plugin_at, free, new, broken, and_then, next_way, e2)
        refl
