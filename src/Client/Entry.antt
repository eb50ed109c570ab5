-- ===== src/Client/Entry.antt =====
-- src/client.cpp: `sendEntry`.
pub mod Order
use instant_send.Prelude.{
  ℕ, ◌-◌, Bool, true, false, ◌&&◌, ◌||◌, List, [], ◌∷◌, ◌++◌, Option, none, some, if◌then◌else◌,
  ltb, Bytes, codes, length, drop,
}
use instant_send.Paths.{combine_path}
use instant_send.Json.Float.{FloatOps}
use instant_send.Json.Loader.{bytes_eq}
use instant_send.Json.Cast.{Thrown, runtime}
use instant_send.Client.Upload.{Upload, uploaded, failed, never, overran, upload}

-- What a path leads to: a directory with the entries in the order of `next`, a file, or something
-- that can not be opened, with the text of the exception.
mutual
  pub data Entry : Type 0 where
    directory : Entries → Entry
    file : Bytes → Entry
    unreadable : Bytes → Entry

  pub data Entries : Type 0 where
    no_entries : Entries
    entry : Bytes → Entry → Entries → Entries

-- What the connection does during the upload of a file: how many messages it takes before it breaks,
-- and the answer.
abbrev pub Reaction : Type 0
Reaction = Option ℕ × Option Bytes

-- `sendEntry` returns true, or throws, having sent files below their names; or it never ends; or an
-- upload writes outside of its buffer.
pub data Walk : Type 0 where
  went : List (Bytes × Upload) → List Reaction → Walk
  stopped : Thrown → List (Bytes × Upload) → Walk
  spins : Walk
  overwrote : List (Bytes × Upload) → Walk

abbrev pub ends_with : Bytes → Bytes → Bool
ends_with path suffix =
    ltb (length suffix - 1) (length path)
    && bytes_eq (drop (length path - length suffix) path) suffix

abbrev pub is_dots : Bytes → Bool
is_dots path =
    (ends_with path (codes "/.") || ends_with path (codes "\\."))
    || (ends_with path (codes "/..") || ends_with path (codes "\\.."))

-- What was sent before, and what is sent behind it.
unfoldable pub after_log : List (Bytes × Upload) → Walk → Walk
after_log log (went more rs) = went (log ++ more) rs
after_log log (stopped e more) = stopped e (log ++ more)
after_log log spins = spins
after_log log (overwrote more) = overwrote (log ++ more)

unfoldable pub and_walk : Walk → (List Reaction → Walk) → Walk
and_walk (went log rs) f = after_log log (f rs)
and_walk (stopped e log) f = stopped e log
and_walk spins f = spins
and_walk (overwrote log) f = overwrote log

unfoldable pub upload_end : Bytes → Upload → List Reaction → Walk
upload_end name (uploaded ms) rs = went ((name, uploaded ms) ∷ []) rs
upload_end name (failed e ms) rs = stopped e ((name, failed e ms) ∷ [])
upload_end name never rs = spins
upload_end name (overran ms) rs = overwrote ((name, overran ms) ∷ [])

-- `ignored` is where the names that are sent begin.
module _ {F : Type 0} (fl : FloatOps F) (ignored : ℕ) (stale : Bytes) where
  -- Where no reaction is left the connection has failed.
  unfoldable pub send_one : Bytes → Bytes → List Reaction → Walk
  unfolding upload_end
  send_one name contents [] = upload_end name (upload fl name contents stale none none) []
  send_one name contents ((breaks, answer) ∷ rs) =
      upload_end name (upload fl name contents stale breaks answer) rs

  unfoldable mutual
    pub send_entry : Entry → Bytes → List Reaction → Walk
    send_entry (directory es) path rs =
        let inside = send_entries es path rs in if is_dots path then went [] rs else inside
    send_entry (file contents) path rs =
        if is_dots path then went [] rs else send_one (drop ignored path) contents rs
    send_entry (unreadable what) path rs =
        if is_dots path then went [] rs else stopped (runtime what) []

    pub send_entries : Entries → Bytes → List Reaction → Walk
    send_entries no_entries path rs = went [] rs
    send_entries (entry name e es) path rs =
        and_walk (send_entry e (combine_path path name) rs) (send_entries es path)
