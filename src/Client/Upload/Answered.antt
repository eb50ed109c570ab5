-- ===== src/Client/Upload/Answered.antt =====
-- src/client.cpp, src/datareceiver.cpp: the client with the answer of the receiver.
use instant_send.Prelude.{List, [], ◌∷◌, ◌++◌, Option, none, some, Bytes}
use instant_send.Json.Float.{FloatOps}
use instant_send.Transfer.{finished}

module _ {F : Type 0} (fl : FloatOps F) where
  -- What `upload_file` makes of the messages of the loop.
  abbrev rest_of : Bytes → Option (List Bytes) → Option (List Bytes)
  rest_of stale none = none
  rest_of stale (some ms) = some (ms ++ finished stale ∷ [])
