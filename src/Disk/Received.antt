-- ===== src/Disk/Received.antt =====
-- src/filewriter.cpp, src/sysapi/posix/file.cpp: what is on the disk when the writer has written what it
-- was given.
use mathlib.Core.Path.{subst}
use mathlib.Core.List.{Perm, map}
use mathlib.Core.List.Perm
use instant_send.Prelude.{
  ℕ, ◌+◌, ◌-◌, ◌≤◌, ◌<◌, ◌^◌, ◌≡◌, ◌∙◌, ap, refl, true, ◌||◌, List, [], ◌∷◌, ◌++◌, append-nil, some,
  arith, Bytes, length, take, drop, length-drop, length-append, take-append_length, drop-append,
  drop-drop, Bool-cases, inl, inr,
}
use instant_send.Word.{Int64}
use instant_send.Json.Float.{FloatOps}
use instant_send.Json.Equal.{bytes_eq_refl}
use instant_send.Writer.{Fragment}
use instant_send.Writer.Threads.{System, Reach}
use instant_send.Writer.Threads.Account.{fragments, nothing_lost}
use instant_send.Transfer.{
  Event, write, send_err, dec_rc, crash, hang, send_file, receive_file_data,
}
use instant_send.Transfer.Delivery.{Delivers, send_file-Delivers}
use instant_send.Disk.Fragments.{Part, write_all, covers, fits, any_covers, all_fit, write_all-Perm}

-- What `fileWriter_t::writeData` puts into the queue: nothing for a fragment without bytes.
unfoldable pub parts_of : List Event → List Part
parts_of [] = []
parts_of (write n [] ∷ es) = parts_of es
parts_of (write n (c ∷ cs) ∷ es) = (n, c ∷ cs) ∷ parts_of es
parts_of (_ ∷ es) = parts_of es

abbrev pub place : Fragment → Part
place f = (f.pos, f.dat)

module _ (whole : Bytes) where
  abbrev Covered : ℕ → List Part → Type 0
  Covered pos ws =
      (all_fit whole ws ≡ true) × ((i : ℕ) → pos ≤ i → i < length whole → any_covers i ws ≡ true)

  chunk-fits :
      (pos : ℕ) (dat rest : Bytes)
      → drop pos whole ≡ dat ++ rest
      → pos ≤ length whole
      → fits whole (pos, dat) ≡ true
  chunk-fits pos dat rest e le =
      let size : length dat + length rest ≡ length whole - pos =
        omega (arith, length-append dat rest, length-drop pos whole, ap length e) in
      let piece : take (length dat) (drop pos whole) ≡ dat =
        ap (take (length dat)) e ∙ take-append_length dat rest in
      rw piece (ground (arith, bytes_eq_refl dat))

  chunk-end :
      (pos : ℕ) (dat rest : Bytes)
      → drop pos whole ≡ dat ++ rest
      → pos ≤ length whole
      → pos + length dat ≤ length whole
  chunk-end pos dat rest e le =
      omega (arith, length-append dat rest, length-drop pos whole, ap length e)

  chunk-rest :
      (pos : ℕ) (dat rest : Bytes)
      → drop pos whole ≡ dat ++ rest
      → drop (pos + length dat) whole ≡ rest
  chunk-rest pos dat rest e =
      drop-drop pos (length dat) whole ∙ ap (drop (length dat)) e ∙ drop-append dat rest

  -- The first part covers what lies before its end, the others what lies behind.
  either :
      (i : ℕ) (w : Part) (ws : List Part) (pos : ℕ)
      → w.0 ≡ pos
      → pos ≤ i
      → (pos + length (w.1) ≤ i → any_covers i ws ≡ true)
      → (covers i w || any_covers i ws) ≡ true
  either i w ws pos at lo behind = elim (Bool-cases (covers i w)) [
    | inl hit ↦ rw hit refl
    | inr miss ↦ rw miss (behind (ground arith))
  ]

  Delivers-Covered :
      (pos : ℕ) (rest : Bytes) (es : List Event)
      → Delivers pos rest es
      → drop pos whole ≡ rest
      → pos ≤ length whole
      → Covered pos (parts_of es)
  unfolding Delivers parts_of
  Delivers-Covered pos rest [] d e le = absurd d
  Delivers-Covered pos rest (write p [] ∷ es) (at, more, split, d) e le =
      let end : pos + 0 ≡ pos = omega arith in
      Delivers-Covered pos more es (subst (λ k. Delivers k more es) end d) (e ∙ split) le
  Delivers-Covered pos rest (write p (c ∷ cs) ∷ es) (at, more, split, d) e le =
      let dat = c ∷ cs in
      let here : drop pos whole ≡ dat ++ more = e ∙ split in
      let end = chunk-end pos dat more here le in
      let (f, covered) =
        Delivers-Covered (pos + length dat) more es d (chunk-rest pos dat more here) end in
      let fit : fits whole (p, dat) ≡ true = rw at (chunk-fits pos dat more here le) in
      (rw fit f, λ i lo hi. either i (p, dat) (parts_of es) pos at lo (λ past. covered i past hi))
  Delivers-Covered pos rest (dec_rc ∷ []) d e le =
      (refl, λ i lo hi. absurd (omega (arith, length-drop pos whole, ap length (e ∙ d))))
  Delivers-Covered pos rest (dec_rc ∷ _ ∷ es) d e le = absurd d
  Delivers-Covered pos rest (send_err t ∷ es) d e le = absurd d
  Delivers-Covered pos rest (crash ∷ es) d e le = absurd d
  Delivers-Covered pos rest (hang ∷ es) d e le = absurd d

module _ {F : Type 0} (fl : FloatOps F) where
  -- When the thread of the writer has written all that was put into its queue, and what was put there
  -- are the fragments that `receiveFileData` made of the messages of a client, then the contents on the
  -- disk are the client's file, in whatever order the threads put and wrote the fragments; the file on
  -- the disk was not longer before.
  pub write_all-received :
      (file stale old : Bytes) (ms : List Bytes) (size : Int64) (s : System)
      → length file < 2 ^ 63
      → send_file fl file stale ≡ some ms
      → Reach size s
      → s.writer.queue ≡ []
      → fragments s.run ≡ []
      → Perm (parts_of (receive_file_data fl ms)) (map place s.accepted)
      → length old ≤ length file
      → write_all (map place s.done) old ≡ file
  write_all-received file stale old ms size s small sends r empty idle given short =
      let (ns, sends2, delivers) = send_file-Delivers fl file stale small in
      let same : ns ≡ ms = cc in
      let (fit, covered) =
        Delivers-Covered file 0 file (receive_file_data fl ms)
          (subst (λ l. Delivers 0 file (receive_file_data fl l)) same delivers) refl
          (omega arith) in
      let all_done : (s.done ++ fragments s.run) ++ s.writer.queue ≡ s.done =
        rw (empty, idle) (append-nil (s.done ++ []) ∙ append-nil s.done) in
      let written : Perm s.accepted s.done =
        subst (λ l. Perm s.accepted l) all_done (nothing_lost size s r).0 in
      write_all-Perm file (parts_of (receive_file_data fl ms)) (map place s.done) old
        (Perm.trans given (Perm.map place written)) fit (λ i lt. covered i (omega arith) lt) short
