-- ===== src/Transfer/Reply.antt =====
-- src/datareceiver.cpp: the messages that the receiver answers with.
use instant_send.Prelude.{ℕ, ◌∷◌, ◌++◌, Option, none, some, Bytes, codes, take}
use instant_send.Transfer.Offer.{Reply, receive, reject, refuse, stuck, overruns}

unfoldable pub reject_text : Bytes
reject_text =
    codes "{\"service\":\"filetransfer\",\"action\":\"reject\",\"reason\":\"Filename is unsafe\"}"

unfoldable pub accept_text : Bytes
accept_text = codes "{ \"service\" : \"filetransfer\", \"action\" : \"accept\" }"

-- What is sent of a buffer with a text. `stale` is what the memory behind the text holds.
unfoldable pub buffer_with : ℕ → Bytes → Bytes → Bytes
buffer_with size text stale = take size (text ++ 0 ∷ stale)

-- `size` is what the memory of `data->size` holds: `reject` does not set it, and the message of
-- `sendHeader` has neither a size nor a text. Of a round that never ends, or that wrote outside of its
-- buffer, no message is given.
unfoldable pub reply_message : ℕ → Bytes → Reply → Option Bytes
unfolding buffer_with accept_text reject_text
reply_message size stale (receive path n) = some (buffer_with 53 accept_text stale)
reply_message size stale reject = some (buffer_with size reject_text stale)
reply_message size stale (refuse e) = some (take size stale)
reply_message size stale stuck = none
reply_message size stale overruns = none
