-- ===== src/Client/Entry/Order.antt =====
-- src/client.cpp: which files `sendEntry` sends, and in which order.
use instant_send.Prelude.{
  ℕ, ◌≡◌, refl, sym, ap, ◌∙◌, Bool, true, false, List, [], ◌∷◌, ◌++◌, append_assoc, if◌then◌else◌,
  Bytes, drop,
}
use instant_send.Paths.{combine_path}
use instant_send.Json.Float.{FloatOps}
use instant_send.Json.Cast.{runtime}
use instant_send.Client.Upload.{Upload, uploaded, failed, never, overran}
use instant_send.Client.Entry.{
  Entry, Entries, directory, file, unreadable, no_entries, entry, Reaction, Walk, went, stopped,
  spins, overwrote, is_dots, after_log, and_walk, upload_end, send_one, send_entry, send_entries,
}

-- The names of the files below a path, in the order of the entries.
unfoldable mutual
  pub names_of : ℕ → Entry → Bytes → List Bytes
  names_of ignored (directory es) path =
      let inside = names_in ignored es path in if is_dots path then [] else inside
  names_of ignored (file contents) path = if is_dots path then [] else drop ignored path ∷ []
  names_of ignored (unreadable what) path = []

  pub names_in : ℕ → Entries → Bytes → List Bytes
  names_in ignored no_entries path = []
  names_in ignored (entry name e es) path =
      names_of ignored e (combine_path path name) ++ names_in ignored es path

abbrev pub names : List (Bytes × Upload) → List Bytes
names [] = []
names ((name, u) ∷ log) = name ∷ names log

-- Where a walk ends it has sent every name in its order, and where it stops, the first ones of them.
abbrev pub Follows : List Bytes → Walk → Type 0
Follows ns (went log rs) = names log ≡ ns
Follows ns (stopped e log) = (more : List Bytes) × (names log ++ more ≡ ns)
Follows ns spins = Unit
Follows ns (overwrote log) = (more : List Bytes) × (names log ++ more ≡ ns)

names-append : (a b : List (Bytes × Upload)) → names (a ++ b) ≡ names a ++ names b
names-append [] b = refl
names-append ((name, u) ∷ a) b = ap (◌∷◌ name) (names-append a b)

after_log-Follows :
    (log : List (Bytes × Upload)) (ns : List Bytes) (w : Walk)
    → Follows ns w
    → Follows (names log ++ ns) (after_log log w)
unfolding after_log
after_log-Follows log ns (went more rs) h = names-append log more ∙ ap (λ l. names log ++ l) h
after_log-Follows log ns (stopped e more) (rest, h) = (
  rest,
  ap (λ l. l ++ rest) (names-append log more)
      ∙ append_assoc (names log) (names more) rest
      ∙ ap (λ l. names log ++ l) h,
)
after_log-Follows log ns spins h = tt
after_log-Follows log ns (overwrote more) (rest, h) = (
  rest,
  ap (λ l. l ++ rest) (names-append log more)
      ∙ append_assoc (names log) (names more) rest
      ∙ ap (λ l. names log ++ l) h,
)

and_walk-Follows :
    (ns ms : List Bytes) (w : Walk) (f : List Reaction → Walk)
    → Follows ns w
    → ((rs : List Reaction) → Follows ms (f rs))
    → Follows (ns ++ ms) (and_walk w f)
unfolding and_walk
and_walk-Follows ns ms (went log rs) f h k = rw (sym h) (after_log-Follows log ms (f rs) (k rs))
and_walk-Follows ns ms (stopped e log) f (more, h) k =
    (more ++ ms, sym (append_assoc (names log) more ms) ∙ ap (λ l. l ++ ms) h)
and_walk-Follows ns ms spins f h k = tt
and_walk-Follows ns ms (overwrote log) f (more, h) k =
    (more ++ ms, sym (append_assoc (names log) more ms) ∙ ap (λ l. l ++ ms) h)

upload_end-Follows :
    (name : Bytes) (u : Upload) (rs : List Reaction) → Follows (name ∷ []) (upload_end name u rs)
unfolding upload_end
upload_end-Follows name (uploaded ms) rs = refl
upload_end-Follows name (failed e ms) rs = ([], refl)
upload_end-Follows name never rs = tt
upload_end-Follows name (overran ms) rs = ([], refl)

module _ {F : Type 0} (fl : FloatOps F) (ignored : ℕ) (stale : Bytes) where
  send_one-Follows :
      (name contents : Bytes) (rs : List Reaction)
      → Follows (name ∷ []) (send_one fl ignored stale name contents rs)
  unfolding send_one
  send_one-Follows name contents [] = upload_end-Follows name _ []
  send_one-Follows name contents ((breaks, answer) ∷ rs) = upload_end-Follows name _ rs

  shown :
      (b : Bool) (ns : List Bytes) (w : Walk) (rs : List Reaction)
      → Follows ns w
      → Follows (if b then [] else ns) (if b then went [] rs else w)
  shown true ns w rs h = refl
  shown false ns w rs h = h

  unreadable-Follows :
      (b : Bool) (what : Bytes) (rs : List Reaction)
      → Follows [] (if b then went [] rs else stopped (runtime what) [])
  unreadable-Follows true what rs = refl
  unreadable-Follows false what rs = ([], refl)

  mutual
    unfolding send_entry send_entries names_of names_in

    entry-Follows :
        (e : Entry) (path : Bytes) (rs : List Reaction)
        → Follows (names_of ignored e path) (send_entry fl ignored stale e path rs)
    entry-Follows (directory es) path rs = shown (is_dots path) _ _ rs (entries-Follows es path rs)
    entry-Follows (file contents) path rs =
        shown (is_dots path) _ _ rs (send_one-Follows (drop ignored path) contents rs)
    entry-Follows (unreadable what) path rs = unreadable-Follows (is_dots path) what rs

    entries-Follows :
        (es : Entries) (path : Bytes) (rs : List Reaction)
        → Follows (names_in ignored es path) (send_entries fl ignored stale es path rs)
    entries-Follows no_entries path rs = refl
    entries-Follows (entry name e es) path rs =
        and_walk-Follows _ _ _ (send_entries fl ignored stale es path)
          (entry-Follows e (combine_path path name) rs) (entries-Follows es path)

  -- What `sendEntry` sends of a directory are the names of the files below it, each once and in the
  -- order of the directories; where an upload throws or something can not be opened, the first ones
  -- of them, and nothing behind.
  pub send_entry-Follows :
      (e : Entry) (path : Bytes) (rs : List Reaction)
      → Follows (names_of ignored e path) (send_entry fl ignored stale e path rs)
  send_entry-Follows = entry-Follows
