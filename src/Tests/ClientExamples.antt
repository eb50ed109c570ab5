-- ===== src/Tests/ClientExamples.antt =====
-- The theorems about src/client.cpp at concrete ways, answers and directories.
use instant_send.Prelude.{◌++◌}
use instant_send.Prelude.{refl, Bool, true, false, List, [], ◌∷◌, none, some, codes, Bytes}
use instant_send.Json.Syntax.{Json, Items, Fields, str, null, obj, no_items, item, no_fields, field}
use instant_send.Json.Object.{gie}
use instant_send.Json.Fields.{compare_bytes, map_find}
use instant_send.Json.Cast.{member}
use instant_send.Plugins.{Plugins, load_plugin}
use instant_send.Client.{plugin_of, find_way}
use instant_send.Client.Ways.{find_way-Chooses, Chooses, first_usable}
use instant_send.Client.Entry.{
  Entry, Reaction, directory, file, unreadable, no_entries, entry, send_entry,
}
use instant_send.Client.Entry.Order.{Follows, names_of, send_entry-Follows}
use instant_send.Json.Loader.{bytes_eq}
use instant_send.Tests.JsonRuns.{Term, term_ops}

abbrev no_plugins : Plugins
no_plugins = record { storage = λ n. none; locked = false }

abbrev way : Bytes → Fields Term
way name = field (codes "config") null (field (codes "plugin") (str name) no_fields)

abbrev only_tls : Bytes → Json Term → Bool
only_tls name config = bytes_eq name (codes "ip4tcps")

abbrev two_ways : Items Term
two_ways = item (obj (way (codes "ip4tcp"))) (item (obj (way (codes "ip4tcps"))) no_items)

find_way-Chooses_example :
    Chooses
      (λ path. some true)
      (codes ".so")
      (codes "/lib" ∷ [])
      only_tls
      (first_usable (λ path. some true) (codes ".so") (codes "/lib" ∷ []) only_tls 0 two_ways)
      (find_way
        (λ path. some true)
        (codes ".so")
        (codes "/lib" ∷ [])
        only_tls
        0
        two_ways
        no_plugins)
unfolding plugin_of member gie map_find compare_bytes load_plugin
find_way-Chooses_example =
    find_way-Chooses (λ path. some true) (codes ".so") (codes "/lib" ∷ []) only_tls 0 two_ways
      no_plugins ((true, refl), ((true, refl), tt)) (refl, λ n h e. absurd cc)

abbrev four_bytes : Bytes
four_bytes = 7 ∷ 0 ∷ 8 ∷ 9 ∷ []

abbrev offered_text : Bytes
offered_text =
    codes "{\"filename\" : \"a.txt\", \"filesize\" : 5, \"service\" : \"filetransfer\"}" ++ 0 ∷ []

-- A directory with an entry of itself, a file, and a directory that can not be opened.
abbrev tree : Entry
tree = directory (
    entry (codes ".") (directory no_entries) (
      entry (codes "a") (file (codes "hello"))
        (entry (codes "secret") (unreadable (codes "opendir: Permission denied")) no_entries)))

abbrev accepted : List Reaction
accepted = (none, some (codes "{\"service\":\"filetransfer\",\"action\":\"accept\"}")) ∷ []

send_entry-Follows_example :
    Follows
      (names_of 5 tree (codes "/home/dir"))
      (send_entry term_ops 5 four_bytes tree (codes "/home/dir") accepted)
send_entry-Follows_example =
    send_entry-Follows term_ops 5 four_bytes tree (codes "/home/dir") accepted
