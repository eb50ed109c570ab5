-- ===== src/Client/Main.antt =====
-- src/client.cpp: the two loops of `main` over its arguments.
pub mod Ends
use instant_send.Prelude.{
  ℕ, zero, suc, Bool, true, false, ◌&&◌, not, List, [], ◌∷◌, ◌++◌, Option, none, some,
  if◌then◌else◌, Bytes, codes, length,
}
use instant_send.Paths.{get_file_name, trim_slashes}
use instant_send.Json.Syntax.{Json, Items, Fields}
use instant_send.Json.Array.{item_at}
use instant_send.Json.Float.{FloatOps}
use instant_send.Json.Loader.{bytes_eq}
use instant_send.Json.Cast.{Attempt, value, raised, endless, Thrown, as_arr, as_obj, member, ◌>>=◌}
use instant_send.Plugins.{Plugins, Call, back, throws, blocks, reset}
use instant_send.Client.{plugin_of, find_way, Way, chosen, no_way, hangs}
use instant_send.Client.Upload.{Upload}
use instant_send.Client.Entry.{Entry, Reaction, Walk, went, stopped, spins, overwrote, send_entry}

-- `-c` and `-p`: the file of the configuration and `outputpercentage`.
unfoldable pub options : Bytes → Bool → List Bytes → Bytes × Bool
options cfgfile percentage (a ∷ b ∷ rest) =
    let named = options b percentage rest in
    let shown = options cfgfile true (b ∷ rest) in
    let other = options cfgfile percentage (b ∷ rest) in
    if bytes_eq a (codes "-c") then named else if bytes_eq a (codes "-p") then shown else other
options cfgfile percentage _ = (cfgfile, percentage)

-- The variables of the second loop: `client` is the name of the plugin that made the client, with the
-- reactions that are left of the connection. `log` is what was sent to which target.
pub record Client : Type 0 where
  pub plugins : Plugins
  pub tname : Option Bytes
  pub client : Option Bytes
  pub reactions : List Reaction
  pub failure : Bool
  pub log : List (Bytes × List (Bytes × Upload))

-- `main` exits with a code, or reads outside a string, writes outside a buffer or reads through a NULL
-- pointer, or never ends.
pub data Exit : Type 0 where
  exits : ℕ → Client → Exit
  crashes : Exit
  endless_loop : Exit

-- A round goes on with the arguments that are left.
pub data Round : Type 0 where
  goes : Client → List Bytes → Round
  ends : Exit → Round

-- The loop that skips a target, which stands at the argument behind `-t`.
unfoldable pub skip_target : List Bytes → List Bytes
skip_target (a ∷ b ∷ rest) =
    let more = skip_target (b ∷ rest) in if bytes_eq a (codes "-t") then a ∷ b ∷ rest else more
skip_target _ = []

-- The old client is deleted when a new one is assigned.
unfoldable pub reset_client : Option Bytes → Plugins → Call
reset_client none s = back s
reset_client (some name) s = reset name s

unfoldable pub chosen_name : {F : Type 0} → Option (Json F) → Option Bytes
chosen_name none = none
chosen_name (some way) = elim (plugin_of way) [
  | value (name, m) ↦ some name
  | raised e ↦ none
  | endless ↦ none
]

unfoldable pub next_round : (Client → List Bytes → Exit) → Round → Exit
next_round more (goes c rest) = more c rest
next_round more (ends e) = e

-- What is around the loop: the loader and the search paths of the plugins, `newClient` of a plugin, what
-- a connection to a target does, what a path leads to, what the memory of the last message holds, and
-- the targets of the configuration.
pub record World (F : Type 0) : Type 0 where
  pub try_load : Bytes → Option Bool
  pub extension : Bytes
  pub paths : List Bytes
  pub connect : Bytes → Json F → Bool
  pub link : Bytes → List Reaction
  pub entry_at : Bytes → Entry
  pub stale : Bytes
  pub targets : Fields F

unfoldable pub fail_target : Client → List Bytes → Round
fail_target c rest = goes (record c { failure = true }) (skip_target rest)

-- The assignment to `client`, when the old one was deleted.
unfoldable pub assign : Client → Option Bytes → List Reaction → List Bytes → Call → Round
assign c name reactions rest (back t) =
    goes (record c { plugins = t; client = name; reactions = reactions }) rest
assign c name reactions rest (throws t) = ends crashes
assign c name reactions rest blocks = ends endless_loop

-- An exception of `sendEntry` ends `main` with 1.
unfoldable pub after_walk : Client → Bytes → List Bytes → Walk → Round
after_walk c target rest (went log rs) =
    goes (record c { reactions = rs; log = c.log ++ (target, log) ∷ [] }) rest
after_walk c target rest (stopped e log) =
    ends (exits 1 (record c { log = c.log ++ (target, log) ∷ [] }))
after_walk c target rest spins = ends endless_loop
after_walk c target rest (overwrote log) = ends crashes

module _ {F : Type 0} (fl : FloatOps F) (world : World F) where
  -- `targets.gie(tname)` and its ways.
  unfoldable pub ways_of : Bytes → Attempt (Items F)
  ways_of target = member target (world.targets) >>= as_obj >>= member (codes "ways") >>= as_arr

  -- `client = findWay(...)`
  unfoldable pub take_way : Client → Bytes → List Bytes → Items F → Way → Round
  take_way c target rest ways (chosen i s) =
      assign c (chosen_name (item_at i ways)) (world.link target) rest (reset_client (c.client) s)
  take_way c target rest ways (no_way s) = fail_target (record c { plugins = s }) (target ∷ rest)
  take_way c target rest ways hangs = ends endless_loop

  unfoldable pub take_ways : Client → Bytes → List Bytes → Attempt (Items F) → Round
  take_ways c target rest (value ways) =
      take_way c target rest ways (
        find_way (world.try_load) (world.extension) (world.paths) (world.connect) 0 ways
          (c.plugins))
  take_ways c target rest (raised e) = fail_target c (target ∷ rest)
  take_ways c target rest endless = ends endless_loop

  unfoldable pub take_target : Client → Bytes → List Bytes → Round
  take_target c target rest =
      take_ways (record c { tname = some target }) target rest (ways_of target)

  unfoldable pub send_path : Client → Bytes → List Bytes → Bytes → Option ℕ → Option Bytes → Round
  send_path c target rest fn (some at) (some plugin) =
      after_walk c target rest (send_entry fl at (world.stale) (world.entry_at fn) fn (c.reactions))
  send_path c target rest fn _ _ = ends crashes

  -- `-f` without a target is passed over.
  unfoldable pub take_file : Client → Bytes → List Bytes → Option Bytes → Option Bytes → Round
  take_file c fn rest none trimmed = goes c (fn ∷ rest)
  take_file c fn rest (some target) none = ends crashes
  take_file c fn rest (some target) (some path) =
      send_path c target rest path (get_file_name path) (c.client)

  unfoldable pub take : Client → Bytes → Bytes → List Bytes → Round
  take c a b rest =
      if bytes_eq a (codes "-t")
      then take_target c b rest
      else if bytes_eq a (codes "-f")
      then take_file c b rest (c.tname) (trim_slashes b)
      else goes c (b ∷ rest)

  unfoldable pub serve : ℕ → Client → List Bytes → Exit
  serve fuel c [] = exits (if c.failure then 1 else 0) c
  serve fuel c (a ∷ []) = exits (if c.failure then 1 else 0) c
  serve zero c (a ∷ b ∷ rest) = endless_loop
  serve (suc fuel) c (a ∷ b ∷ rest) = next_round (serve fuel) (take c a b rest)
