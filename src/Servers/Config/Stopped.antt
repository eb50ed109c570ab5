-- ===== src/Servers/Config/Stopped.antt =====
-- src/serverlist.cpp, src/server.cpp: what `main` starts it stops.
use Prim.Native.Nat.{lt, eq, gt}
use mathlib.Core.List.{Perm, perm_middle}
use mathlib.Core.List.Perm
use instant_send.Prelude.{
  Bool, true, false, Option, none, some, if◌then◌else◌, ℕ, ◌≡◌, ◌≢◌, refl, List, [], ◌∷◌, ◌++◌,
  append_assoc, append-nil, Bytes, codes,
}
use instant_send.Json.Syntax.{
  Json, Items, Fields, no_items, item, int, float, str, bool, null, arr, obj,
}
use instant_send.Json.Fields.{compare_bytes}
use instant_send.Json.Object.{gie, found, not_exist}
use instant_send.Json.Cast.{Attempt, value, raised, endless, missing, ◌>>=◌, as_obj, as_str, member}
use instant_send.Plugins.{Plugins, counted, load_plugin}
use instant_send.Plugins.Used.{
  Ready, release-Ready, plugin_at-Ready, as_creator-true, as_creator-false, counted-Ready,
}
use instant_send.Servers.Config.{
  ServerMap, push_back, remove, Constructed, made, thrown, waits, behind, released, server_of,
  construct, entry_of, kept, add_entry, Loaded, in_list, stuck, load_servers,
}

remove-push_back :
    (name : Bytes) (p : ℕ) (servers : ServerMap)
    → Perm (p ∷ (remove servers).0) ((remove (push_back name p servers)).0)
unfolding remove push_back
remove-push_back name p [] = Perm.refl _
remove-push_back name p ((k, ps) ∷ servers) =
    elim (compare_bytes name k)
      as (λ o. Perm (p ∷ (ps ++ (remove servers).0)) (
        (remove (elim o [
          | lt ↦ (name, p ∷ []) ∷ (k, ps) ∷ servers
          | eq ↦ (k, ps ++ p ∷ []) ∷ servers
          | gt ↦ (k, ps) ∷ push_back name p servers
        ])).0)) [
          | lt ↦ Perm.refl _
          | eq ↦
              rw (append_assoc ps (p ∷ []) ((remove servers).0))
                (Perm.symm (perm_middle ps ((remove servers).0)))
          | gt ↦
              Perm.trans (Perm.symm (perm_middle ps ((remove servers).0)))
                (Perm.append_left ps (remove-push_back name p servers))
        ]

bind_ends :
    {A B : Type 0} (a : Attempt A) (f : A → Attempt B)
    → a ≢ endless
    → ((x : A) → f x ≢ endless)
    → (a >>= f) ≢ endless
bind_ends (value x) f h k = k x
bind_ends (raised e) f h k = λ e. cc
bind_ends endless f h k = absurd (h refl)

module _ {F : Type 0} where
  member-ends : (key : Bytes) (m : Fields F) → member key m ≢ endless
  unfolding member
  member-ends key m =
      elim (gie key m)
        as (λ a.
          elim a as (λ _. Attempt (Json F)) [ found v ↦ value v | not_exist k ↦ raised (missing k) ]
          ≢ endless) [ found v ↦ λ e. cc | not_exist k ↦ λ e. cc ]

  as_str-ends : (v : Json F) → as_str v ≢ endless
  as_str-ends (int n) = λ e. cc
  as_str-ends (float x) = λ e. cc
  as_str-ends (bool b) = λ e. cc
  as_str-ends null = λ e. cc
  as_str-ends (arr xs) = λ e. cc
  as_str-ends (obj m) = λ e. cc
  as_str-ends (str t) = λ e. cc

  as_obj-ends : (v : Json F) → as_obj v ≢ endless
  as_obj-ends (int n) = λ e. cc
  as_obj-ends (float x) = λ e. cc
  as_obj-ends (bool b) = λ e. cc
  as_obj-ends null = λ e. cc
  as_obj-ends (arr xs) = λ e. cc
  as_obj-ends (obj m) = λ e. cc
  as_obj-ends (str t) = λ e. cc

left_empty : (servers : ServerMap) → (remove servers).1 ≡ []
unfolding remove
left_empty [] = refl
left_empty ((k, ps) ∷ servers) = left_empty servers

module _ {F : Type 0} (try_load : Bytes → Option Bool) (extension : Bytes) (paths : List Bytes)
    (new_server : Bytes → Json F → Option ℕ) where
  pub entry_of-ends :
      (entry : Json F) → entry_of try_load extension paths new_server entry ≢ endless
  unfolding entry_of
  entry_of-ends entry = bind_ends (as_obj entry) _ (as_obj-ends entry) (λ plugin.
      bind_ends (member (codes "name") plugin >>= as_str) _
        (bind_ends (member (codes "name") plugin) _ (member-ends (codes "name") plugin) as_str-ends)
        (λ name.
          bind_ends (member (codes "config") plugin) _ (member-ends (codes "config") plugin)
            (λ p e. cc)))

  -- The receiver that an entry is to give: its library makes connections, and its plugin a server.
  abbrev pub served : Bytes → Json F → Option Bool → Option ℕ
  served name config none = none
  served name config (some connects) = if connects then new_server name config else none

  abbrev pub given : Attempt (Bytes × Json F) → Option ℕ
  given (value (name, config)) = served name config (load_plugin try_load extension paths name)
  given (raised e) = none
  given endless = none

  abbrev pub onto : Option ℕ → List ℕ → List ℕ
  onto none ps = ps
  onto (some p) ps = p ∷ ps

  unfoldable pub receivers : Items F → List ℕ
  receivers no_items = []
  receivers (item entry entries) =
      onto (given (entry_of try_load extension paths new_server entry)) (receivers entries)

  -- Every entry that names a plugin names one whose library can be loaded.
  abbrev pub IsLoadable : Attempt (Bytes × Json F) → Type 0
  IsLoadable (value (name, config)) =
      (c : Bool) × (load_plugin try_load extension paths name ≡ some c)
  IsLoadable (raised e) = Unit
  IsLoadable endless = Unit

  unfoldable pub AllLoadable : Items F → Type 0
  AllLoadable no_items = Unit
  AllLoadable (item entry entries) =
      IsLoadable (entry_of try_load extension paths new_server entry) × AllLoadable entries

  abbrev pub Fits : Option ℕ → Constructed → Type 0
  Fits (some p) (made q t) = (q ≡ p) × Ready try_load extension paths t
  Fits (some p) (thrown t) = ⊥
  Fits (some p) waits = ⊥
  Fits none (made q t) = ⊥
  Fits none (thrown t) = Ready try_load extension paths t
  Fits none waits = ⊥

  released-Fits :
      (o : Option ℕ) (name : Bytes) (f : Plugins → Constructed) (s : Plugins)
      → ((t : Plugins) → Ready try_load extension paths t → Fits o (f t))
      → Ready try_load extension paths s
      → Fits o (released name f s)
  unfolding released behind
  released-Fits o name f s k r =
      let (t, e, r1) = release-Ready try_load extension paths name s (s.storage name) refl r in
      rw (released, e) (k t r1)

  server_of-Fits :
      (name : Bytes) (config : Json F) (s : Plugins)
      → Ready try_load extension paths s
      → Fits (new_server name config) (server_of try_load extension paths new_server name config s)
  unfolding server_of
  server_of-Fits name config s r =
      elim (new_server name config)
        as (λ o. Fits o (elim o [
          | none ↦ released name (released name thrown) s
          | some p ↦ released name (made p) (counted name s)
        ])) [
          | none ↦
              released-Fits none name _ s (λ t q. released-Fits none name thrown t (λ u v. v) q) r
          | some p ↦
              released-Fits (some p) name (made p) (counted name s) (λ t q. (refl, q))
                (counted-Ready try_load extension paths name s (s.storage name) refl r)
        ]

  pub construct-Fits :
      (name : Bytes) (config : Json F) (s : Plugins) (c : Bool)
      → load_plugin try_load extension paths name ≡ some c
      → Ready try_load extension paths s
      → Fits
          (served name config (some c))
          (construct try_load extension paths new_server name config s)
  unfolding construct behind
  construct-Fits name config s true l r =
      let (t, e, r1, (h, at, c)) =
        plugin_at-Ready try_load extension paths name s true (s.storage name) refl r l in
      let (u, e2, r2) = as_creator-true try_load extension paths name t h r1 at c in
      rw (construct, e, behind, e2) (server_of-Fits name config u r2)
  construct-Fits name config s false l r =
      let (t, e, r1, (h, at, c)) =
        plugin_at-Ready try_load extension paths name s false (s.storage name) refl r l in
      rw (construct, e, behind, as_creator-false try_load extension paths name t h at c)
        (released-Fits none name thrown t (λ u v. v) r1)

  abbrev StopsAll : List ℕ → ServerMap → Loaded → Type 0
  StopsAll ps servers l =
      (t : Plugins) × (end : ServerMap) × (l ≡ in_list t end)
      × Ready try_load extension paths t
      × Perm (ps ++ (remove servers).0) ((remove end).0)

  -- Behind the first entry.
  abbrev pub go_on : Items F → Loaded → Loaded
  go_on entries l = elim l as (λ _. Loaded) [
    | in_list t more ↦ load_servers try_load extension paths new_server entries t more
    | stuck ↦ stuck
  ]

  kept-StopsAll :
      (name : Bytes) (o : Option ℕ) (c : Constructed) (entries : Items F) (servers : ServerMap)
      → Fits o c
      → ((t : Plugins) (more : ServerMap)
          → Ready try_load extension paths t
          → StopsAll
              (receivers entries)
              more
              (load_servers try_load extension paths new_server entries t more))
      → StopsAll
          (onto o (receivers entries))
          servers
          (go_on entries (kept try_load extension paths new_server name c servers))
  unfolding kept
  kept-StopsAll name (some p) (made q s) entries servers (same, r) k =
      let (t, end, loads, r1, perm) = k s (push_back name q servers) r in
      (
        t,
        end,
        loads,
        r1,
        rw (← same) (
            Perm.trans
              (Perm.trans (Perm.symm (perm_middle (receivers entries) ((remove servers).0)))
                (Perm.append_left (receivers entries) (remove-push_back name q servers)))
              perm),
      )
  kept-StopsAll name (some p) (thrown s) entries servers h k = absurd h
  kept-StopsAll name (some p) waits entries servers h k = absurd h
  kept-StopsAll name none (made q s) entries servers h k = absurd h
  kept-StopsAll name none (thrown s) entries servers r k = k s servers r
  kept-StopsAll name none waits entries servers h k = absurd h

  add_entry-StopsAll :
      (a : Attempt (Bytes × Json F)) (s : Plugins) (entries : Items F) (servers : ServerMap)
      → a ≢ endless
      → IsLoadable a
      → Ready try_load extension paths s
      → ((t : Plugins) (more : ServerMap)
          → Ready try_load extension paths t
          → StopsAll
              (receivers entries)
              more
              (load_servers try_load extension paths new_server entries t more))
      → StopsAll
          (onto (given a) (receivers entries))
          servers
          (go_on entries (add_entry try_load extension paths new_server a s servers))
  unfolding add_entry
  add_entry-StopsAll (value (name, config)) s entries servers h (c, l) r k = rw l (
      kept-StopsAll name (served name config (some c)) _ entries servers
        (construct-Fits name config s c l r) k)
  add_entry-StopsAll (raised e) s entries servers h l r k = k s servers r
  add_entry-StopsAll endless s entries servers h l r k = absurd (h refl)

  stops_all :
      (entries : Items F) (s : Plugins) (servers : ServerMap)
      → AllLoadable entries
      → Ready try_load extension paths s
      → StopsAll
          (receivers entries)
          servers
          (load_servers try_load extension paths new_server entries s servers)
  unfolding load_servers receivers AllLoadable
  stops_all no_items s servers l r = (s, servers, refl, r, Perm.refl _)
  stops_all (item entry entries) s servers (l, ls) r =
      add_entry-StopsAll (entry_of try_load extension paths new_server entry) s entries servers
        (entry_of-ends entry) l r (λ t more q. stops_all entries t more ls q)

  -- With the lock of the plugins free, when every entry that names a plugin names one whose library can be
  -- loaded, `main` loads the servers of its configuration to the end and the lock is free; `remove` then
  -- calls `stop` once on each receiver of an entry whose library makes connections and whose plugin
  -- makes a server, and leaves the list empty.
  pub remove-load_servers :
      (entries : Items F) (s : Plugins)
      → AllLoadable entries
      → Ready try_load extension paths s
      → (t : Plugins) × (end : ServerMap) × (load_servers try_load extension paths new_server
            entries s []
          ≡ in_list t end)
        × Ready try_load extension paths t
        × Perm (receivers entries) ((remove end).0)
        × ((remove end).1 ≡ [])
  unfolding remove
  remove-load_servers entries s l r =
      let (t, end, loads, r1, perm) = stops_all entries s [] l r in
      (t, end, loads, r1, rw append-nil at perm, left_empty end)
