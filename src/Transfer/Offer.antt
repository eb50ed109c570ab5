-- ===== src/Transfer/Offer.antt =====
-- src/client.cpp, src/datareceiver.cpp: the header of a file, and what the receiver makes of it.
use instant_send.Prelude.{
  ◌^◌, ◌<◌, ◌≤◌, ◌≡◌, refl, not, [], ◌∷◌, ◌++◌, arith, Bytes, first_byte, codes, if◌then◌else◌, ltb,
  length, Option, none, some, false, Bool-cases, inl, inr,
}
use instant_send.Word.{Int64}
use instant_send.Transfer.{max_size}
use instant_send.Paths.{path_is_unsafe, combine_path}
use instant_send.Json.Result.{ok, syntax_err, out_of_fuel}
use instant_send.Json.Syntax.{Fields, int, str, obj, no_fields, field}
use instant_send.Json.Float.{FloatOps}
use instant_send.Json.Fields.{compare_bytes, map_insert, map_find}
use instant_send.Json.Loader.{bytes_eq}
use instant_send.CString.{NoNul, c_string, c_string-NoNul}
use instant_send.Json.Printer.Plain.{print-NoNul}
use instant_send.Json.Printer.{print}
use instant_send.Json.Printer.Bracket.{bracket_cons}
use instant_send.Json.Printable.{IsPrintable}
use instant_send.Json.Whole.{cfg_read_str-print}
use instant_send.Json.Object.{gie, insert_new}
use instant_send.Json.Cast.{
  Thrown, bad_syntax, runtime, read_object, Attempt, value, raised, endless, ◌>>=◌, as_str, as_int,
  member,
}

-- What `parseHeader` ends with. In `receive` it makes the directories of the path, gets a writer for
-- it with the size announced, takes a reference, answers `accept`, and calls `receiveFileData`. It is
-- not called for a message longer than the buffer, for which the round writes outside of the buffer.
pub data Reply : Type 0 where
  receive : Bytes → Int64 → Reply
  reject : Reply
  refuse : Thrown → Reply
  stuck : Reply
  overruns : Reply

module _ {F : Type 0} where
  file_of : Fields F → Attempt (Bytes × Int64)
  file_of h = member (codes "service") h >>= as_str >>= λ service.
      if not (bytes_eq service (codes "filetransfer"))
      then raised (runtime (codes "Service not supported"))
      else member (codes "filename") h >>= as_str >>= λ fname.
          member (codes "filesize") h >>= as_int >>= λ fsize. value (fname, fsize)

  unfoldable pub parse_header : Bytes → Fields F → Reply
  unfolding file_of
  parse_header savedir h = elim (file_of h) [
    | value (fname, fsize) ↦
        if path_is_unsafe fname then reject else receive (combine_path savedir fname) fsize
    | raised e ↦ refuse e
    | endless ↦ stuck
  ]

  -- `msgobj` of `FileReader::send`.
  unfoldable pub offer_fields : Bytes → Int64 → Fields F
  offer_fields name size =
      (insert_new (codes "filesize") (int size)
        (insert_new (codes "filename") (str name)
          (insert_new (codes "service") (str (codes "filetransfer")) no_fields).0).0).0

module _ {F : Type 0} (fl : FloatOps F) where
  -- A round of `dataReceiver_t::run`. `data->data[data->size] = 0` takes the size that was announced.
  unfoldable pub answer : Bytes → Bytes → Reply
  answer savedir m =
      if ltb max_size (length m) then overruns else elim (read_object fl (c_string m)) [
        | ok h ↦ parse_header savedir h
        | syntax_err p ↦ refuse (bad_syntax p)
        | out_of_fuel ↦ stuck
      ]

  -- The first message of `FileReader::send`; `none` where `strcpy` writes outside of the buffer, which
  -- has room for DMAXSIZE bytes and a NUL.
  unfoldable pub offer : Bytes → Int64 → Option Bytes
  offer name size =
      let text = print fl (obj (offer_fields name size)) in
      if ltb max_size (length text) then none else some (text ++ 0 ∷ [])

module _ {F : Type 0} (fl : FloatOps F) (name : Bytes) (size : Int64) where
  abbrev listed_fields : Fields F
  listed_fields = field (codes "filename") (str name) (
      field (codes "filesize") (int size)
        (field (codes "service") (str (codes "filetransfer")) no_fields))

  offer_fields-listed : offer_fields name size ≡ listed_fields
  unfolding offer_fields insert_new map_insert compare_bytes
  offer_fields-listed = refl

  listed-IsPrintable : NoNul name → size < 2 ^ 63 → IsPrintable (obj listed_fields)
  unfolding IsPrintable compare_bytes
  listed-IsPrintable plain small = ground arith

  first_byte-offer : first_byte (print fl (obj listed_fields)) ≡ b'{'
  unfolding print
  first_byte-offer = rw (bracket_cons b'{' b'}' _ _) refl

  read_offer :
      NoNul name
      → size < 2 ^ 63
      → read_object fl (print fl (obj (offer_fields name size))) ≡ ok listed_fields
  unfolding read_object
  read_offer plain small =
      rw
        (
          offer_fields-listed,
          read_object,
          first_byte-offer,
          cfg_read_str-print fl (obj listed_fields) (listed-IsPrintable plain small),
        )
        refl

  parse_listed :
      (savedir : Bytes)
      → parse_header savedir listed_fields
        ≡ (if path_is_unsafe name then reject else receive (combine_path savedir name) size)
  unfolding parse_header member gie map_find compare_bytes bytes_eq
  parse_listed savedir = refl

  read_text :
      (savedir : Bytes)
      → NoNul name
      → size < 2 ^ 63
      → length (print fl (obj (offer_fields name size)) ++ 0 ∷ []) ≤ max_size
      → answer fl savedir (print fl (obj (offer_fields name size)) ++ 0 ∷ [])
        ≡ (if path_is_unsafe name then reject else receive (combine_path savedir name) size)
  unfolding answer
  read_text savedir plain small fits =
      let text = print fl (obj (offer_fields name size)) in
      let whole : NoNul text =
        rw offer_fields-listed
          (print-NoNul fl (obj listed_fields) (listed-IsPrintable plain small)) in
      let short : ltb max_size (length (text ++ 0 ∷ [])) ≡ false = ground arith in
      rw (answer, short, c_string-NoNul text [] whole, read_offer plain small)
        (parse_listed savedir)

  offered :
      (m : Bytes)
      → offer fl name size ≡ some m
      → print fl (obj (offer_fields name size)) ++ 0 ∷ [] ≡ m
  unfolding offer
  offered m made =
      elim (Bool-cases (ltb max_size (length (print fl (obj (offer_fields name size)))))) [
        | inl long ↦ absurd cc
        | inr short ↦ cc
      ]

  -- The receiver takes from a first message of the client of at most 1024 bytes the name and the size
  -- that the client put there, for a name with no NUL; it rejects the file if `pathIsUnsafe` says so, and
  -- otherwise receives it to the path below its directory.
  pub answer-offer :
      (savedir m : Bytes)
      → NoNul name
      → size < 2 ^ 63
      → offer fl name size ≡ some m
      → length m ≤ max_size
      → answer fl savedir m
        ≡ (if path_is_unsafe name then reject else receive (combine_path savedir name) size)
  answer-offer savedir m plain small made fits =
      rw (← offered m made) (read_text savedir plain small (rw (offered m made) fits))
