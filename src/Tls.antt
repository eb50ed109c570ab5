-- ===== src/Tls.antt =====
-- plugins/ip4tcps-posix.cpp: a connection over TLS. What the functions of OpenSSL do is a list, an entry
-- for each call or event.
pub mod RoundTrip
pub mod Endpoint
use instant_send.Prelude.{
  ℕ, zero, suc, ◌-◌, ◌^◌, ◌%◌, Bool, true, false, List, [], ◌∷◌, ◌++◌, ltb, leb, if◌then◌else◌,
  Bytes, length, take, drop,
}
use instant_send.Socket.{encode_size, decode_size}

-- `SSL_write` takes so many bytes, at most those that it was given; or it returns 0, or -1, where
-- `SSL_get_error` says SSL_ERROR_WANT_READ or SSL_ERROR_WANT_WRITE, or another error.
pub data Write : Type 0 where
  took : ℕ → Write
  zero_want zero_error minus_want minus_error : Write

-- `sendData` returns 1 or 0, having made records of what the calls took, or it waits for ever in a call,
-- or it reads behind the message.
pub data Sent : Type 0 where
  returned : Bool → List Bytes → List Write → Sent
  waits : List Bytes → Sent
  out_of_bounds : List Bytes → Sent

-- The second loop, with the records and what is left from `ptr` on. `sent` is unsigned: where the call
-- returns -1, `ptr` moves by 2 ^ 32 - 1.
unfoldable pub write_body : List Write → List Bytes → Bytes → Sent
write_body os records [] = returned true records os
write_body [] records (c ∷ cs) = waits records
write_body (took k ∷ os) records (c ∷ cs) =
    write_body os (records ++ take k (c ∷ cs) ∷ []) (drop k (c ∷ cs))
write_body (zero_want ∷ os) records (c ∷ cs) = write_body os records (c ∷ cs)
write_body (zero_error ∷ os) records (c ∷ cs) = returned false records os
write_body (minus_want ∷ os) records (c ∷ cs) = out_of_bounds records
write_body (minus_error ∷ os) records (c ∷ cs) = out_of_bounds records

-- The first loop. `SSL_get_error` is asked about `errcode`, its own last answer and at first what the
-- memory held, in place of `ret`: it says that there is no error when `errcode` is positive, as its
-- answer was when the loop has gone round, and else tells of the call.
unfoldable pub write_size : List Write → Bool → Bytes → Sent
write_size [] positive dat = waits []
write_size (took k ∷ os) positive dat = write_body os (take k (encode_size (length dat)) ∷ []) dat
write_size (zero_want ∷ os) positive dat = write_body os [] dat
write_size (zero_error ∷ os) positive dat = write_body os [] dat
write_size (minus_want ∷ os) positive dat =
    let more = write_size os true dat in if positive then returned false [] os else more
write_size (minus_error ∷ os) positive dat = returned false [] os

unfoldable pub send_data : List Write → Bool → Bytes → Sent
send_data os errcode_positive dat = write_size os errcode_positive dat

-- What `SSL_read` finds: the rest of a record, SSL_ERROR_WANT_READ or SSL_ERROR_WANT_WRITE, or the end
-- of the connection or another error.
pub data Arrival : Type 0 where
  record_of : Bytes → Arrival
  want failed : Arrival

-- `recvData` returns 1 with `data->size` and the bytes stored, or 0, or it waits for ever in a call.
pub data Taken : Type 0 where
  message : ℕ → Bytes → List Arrival → Taken
  no_message waiting : Taken

-- The loop, with `torecv` and the bytes stored. A call takes from one record.
unfoldable pub read_body : ℕ → List Arrival → ℕ → Bytes → Taken
read_body size events zero stored = message size stored events
read_body size [] (suc n) stored = waiting
read_body size (record_of bs ∷ events) (suc n) stored =
    let more = read_body size events (suc n - length bs) (stored ++ bs) in
    if ltb (suc n) (length bs)
    then message size (stored ++ take (suc n) bs) (record_of (drop (suc n) bs) ∷ events)
    else more
read_body size (want ∷ events) (suc n) stored = read_body size events (suc n) stored
read_body size (failed ∷ events) (suc n) stored = no_message

abbrev pub smaller : ℕ → ℕ → ℕ
smaller n m = if ltb n m then n else m

-- The size is read in one call.
unfoldable pub recv_data : ℕ → List Arrival → Taken
recv_data capacity [] = waiting
recv_data capacity (record_of bs ∷ events) =
    let size = decode_size (take 4 bs) in
    if ltb (length bs) 4
    then no_message
    else if ltb 4 (length bs)
    then read_body size (record_of (drop 4 bs) ∷ events) (smaller size capacity) []
    else read_body size events (smaller size capacity) []
recv_data capacity (want ∷ events) = no_message
recv_data capacity (failed ∷ events) = no_message
