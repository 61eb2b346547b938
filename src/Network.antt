-- ===== src/Network.antt =====
-- ColumnStoreNetwork, of src/util_network.cpp and src/util_network.h: a connection that libuv
-- drives by callbacks. Name resolution and the calls that start it are libuv's; the status that
-- each callback is given is an argument here. A failed status is the magnitude of libuv's code.
pub mod Sending
pub mod Reading
pub mod Delivery
pub mod Packet
pub mod EndToEnd
pub mod Resolving
use mariadb_columnstore_api.Prelude.{
  ℕ, suc, ◌+◌, ◌-◌, ◌%◌, ◌^◌, List, [], ◌∷◌, ◌++◌, Bool, true, false, not, ◌&&◌, ◌||◌, ltb, leb,
  ◌==◌, if◌then◌else◌, Option, none, some, length, take, drop,
}
use mariadb_columnstore_api.Messaging.{
  Messaging, header, compressed_header, empty, allocate_data_size, is_complete_packet,
  is_compressed_header, is_uncompressed_header, set_buffer_used_size,
}
use mariadb_columnstore_api.Messaging.Bytes.{to_le}
use mariadb_columnstore_api.Std.Compression.{Snappy}

pub data ConStatus : Type 0 where
  no_status idle not_connected connecting connect_error connected busy net_error : ConStatus

-- The texts that errMsg takes, with the code whose name ends them.
pub data ErrMsg : Type 0 where
  no_message incorrect_handshake bad_packet : ErrMsg
  could_not_resolve connection_failure could_not_read write_failure : ℕ → ErrMsg

-- `message_out` is the message that readDataStart allocates and that the caller reads from;
-- `deleted` says that the pointer to it was set to null by deleteReadMessage.
pub record Network : Type 0 where
  pub con_status : ConStatus
  pub message_out : Messaging
  pub deleted : Bool
  pub data_in_buffer : ℕ
  pub is_localhost : Bool
  pub err_msg : ErrMsg

-- Whether a call throws ColumnStoreNetworkError.
pub data Raised : Type 0 where
  returned network_error : Raised

-- The status that libuv gives a callback or returns.
pub data UvStatus : Type 0 where
  success : UvStatus
  failed : ℕ → UvStatus

unfoldable pub fail_with : Network → ConStatus → ErrMsg → Network
fail_with n status msg = record n { con_status = status; err_msg = msg }

-- onResolved
unfoldable pub on_resolved : Network → UvStatus → Network
unfolding fail_with
on_resolved n success = n
on_resolved n (failed e) = fail_with n ConStatus.connect_error (could_not_resolve e)

-- onConnect; `started` is what uv_read_start returns.
unfoldable pub on_connect : Network → UvStatus → UvStatus → Network
unfolding fail_with
on_connect n (failed e) started = fail_with n ConStatus.connect_error (connection_failure e)
on_connect n success (failed e) = fail_with n ConStatus.connect_error (could_not_read e)
on_connect n success success = record n { con_status = ConStatus.connected }

-- onConnectReadData: the greeting is the byte 'A'.
unfoldable pub on_connect_read_data : Network → UvStatus → List ℕ → Network
unfolding fail_with
on_connect_read_data n (failed e) bytes = fail_with n ConStatus.connect_error (could_not_read e)
on_connect_read_data n success [] = fail_with n ConStatus.connect_error incorrect_handshake
on_connect_read_data n success (b ∷ []) =
    if b == 65
    then record n { con_status = ConStatus.idle }
    else fail_with n ConStatus.connect_error incorrect_handshake
on_connect_read_data n success (b ∷ (b' ∷ bs)) =
    fail_with n ConStatus.connect_error incorrect_handshake

-- `memcpy` into the data at an offset.
unfoldable pub overwrite : ℕ → List ℕ → List ℕ → List ℕ
overwrite at bytes data' = take at data' ++ (bytes ++ drop (at + length bytes) data')

-- writeData, on the buffers given to uv_write.
unfoldable pub write_data : Network → UvStatus → Network × Raised
write_data n success = (record n { con_status = ConStatus.busy }, returned)
write_data n (failed e) = (record n { con_status = ConStatus.net_error }, network_error)

-- onWriteData
unfoldable pub on_write_data : Network → UvStatus → Network
unfolding fail_with
on_write_data n success = record n { con_status = ConStatus.idle }
on_write_data n (failed e) = fail_with n ConStatus.net_error (write_failure e)

-- The buffers of sendData behind the first one: a piece of the data for each recorded length.
unfoldable pub pieces : List ℕ → List ℕ → List (List ℕ)
pieces [] data' = []
pieces (l ∷ ls) data' = take l data' ∷ pieces ls (drop l data')

-- What a send gives uv_write, and how it ends.
pub record Sent : Type 0 where
  pub buffers : List (List ℕ)
  pub result : Network × Raised

-- sendCompressedData
unfoldable pub send_compressed_data : Snappy → Network → Messaging → UvStatus → Sent
unfolding write_data to_le
send_compressed_data snappy n message written =
    let packed = snappy.raw_compress (drop 8 message.network_data) in
    record {
      buffers = (to_le 4 compressed_header ++ (to_le 4 (length packed) ++ packed)) ∷ [];
      result = write_data n written;
    }

-- sendData
unfoldable pub send_data : Snappy → Network → Messaging → UvStatus → Sent
unfolding write_data overwrite pieces to_le send_compressed_data
send_data snappy n message written =
    let size = length message.network_data in
    let packet = overwrite 4 (to_le 4 (size - 8)) message.network_data in
    if not n.is_localhost && ltb 512 size
    then send_compressed_data snappy n message written
    else (if size == 0 then record { buffers = []; result = (n, returned) } else record {
      buffers = take 8 packet ∷ pieces message.lengths (drop 8 packet);
      result = write_data n written;
    })

-- readDataStart
unfoldable pub read_data_start : Network → UvStatus → Network × Raised
read_data_start n success = (
  record n {
    con_status = ConStatus.busy;
    data_in_buffer = 0;
    message_out = empty;
    deleted = false;
  },
  returned,
)
read_data_start n (failed e) = (
  record n {
    con_status = ConStatus.net_error;
    data_in_buffer = 0;
    message_out = empty;
    deleted = false;
  },
  network_error,
)

-- deleteReadMessage
abbrev pub delete_read_message : Network → Network
delete_read_message n = record n { deleted = true }

-- onAlloc
unfoldable pub on_alloc : Network → ℕ → Network
unfolding allocate_data_size
on_alloc n suggested_size = record n {
  message_out = allocate_data_size n.message_out suggested_size;
}

-- What libuv writes into the buffer that onAlloc offers: no more than there is room for.
unfoldable pub store : Network → List ℕ → Network
unfolding overwrite
store n bytes =
    let m = n.message_out in
    if leb (length bytes) (length m.network_data - m.buffer_used)
    then record n {
      message_out = record m { network_data = overwrite m.buffer_used bytes m.network_data };
    }
    else n

-- uncompressData: the packet that the caller holds is replaced by the uncompressed one.
unfoldable pub uncompress_data : Snappy → Network → ℕ → Network × Raised
unfolding to_le
uncompress_data snappy n result_length =
    let packed = take (n.data_in_buffer - 8) (drop 8 n.message_out.network_data) in
    elim (snappy.raw_uncompress packed) [
      | none ↦ (record n { con_status = ConStatus.net_error }, network_error)
      | some plain ↦ (
        record n {
          message_out = record {
            lengths = [];
            network_data = to_le 4 header ++ (to_le 4 result_length ++ plain);
            position = 0;
            buffer_used = result_length + 8;
          };
          deleted = true;
        },
        returned,
      )
    ]

-- The case of a compressed packet in onReadData.
unfoldable pub read_compressed : Snappy → Network → Network × Raised
unfolding uncompress_data
read_compressed snappy n =
    elim (snappy.uncompressed_length
      (take (n.data_in_buffer - 8) (drop 8 n.message_out.network_data))) [
        | none ↦ (n, returned)
        | some result_length ↦ uncompress_data snappy n result_length
      ]

-- The bytes that onReadData counts.
unfoldable pub counted : Network → ℕ → Network
counted n read_size =
    let used = n.data_in_buffer + read_size in
    record n { data_in_buffer = used; message_out = set_buffer_used_size n.message_out used }

-- A complete packet in onReadData: the read is stopped.
unfoldable pub on_packet : Snappy → Network → Network × Raised
unfolding read_compressed is_compressed_header is_uncompressed_header fail_with
on_packet snappy n =
    let n' = record n { con_status = ConStatus.idle } in
    if is_compressed_header n.message_out
    then read_compressed snappy n'
    else (if is_uncompressed_header n.message_out
        then (n', returned)
        else (fail_with n' ConStatus.net_error bad_packet, returned))

-- onReadData
unfoldable pub on_read_data : Snappy → Network → UvStatus → ℕ → Network × Raised
unfolding counted on_packet is_complete_packet fail_with
on_read_data snappy n (failed e) read_size =
    (fail_with n ConStatus.net_error (could_not_read e), returned)
on_read_data snappy n success read_size =
    let n' = counted n read_size in
    if is_complete_packet n'.message_out then on_packet snappy n' else (n', returned)

-- One round of libuv's reading: onAlloc is asked for room, bytes arrive, onReadData is called.
unfoldable pub deliver : Snappy → Network → ℕ × List ℕ → Network × Raised
unfolding on_alloc store on_read_data
deliver snappy n (suggested_size, bytes) =
    on_read_data snappy (store (on_alloc n suggested_size) bytes) success (length bytes)

unfoldable pub is_busy : ConStatus → Bool
is_busy ConStatus.busy = true
is_busy _ = false

-- Whether libuv goes on reading.
unfoldable pub reads_on : Network × Raised → Bool
unfolding is_busy
reads_on (n, returned) = is_busy n.con_status
reads_on (n, network_error) = false

-- Rounds of reading until the connection is no longer busy.
unfoldable pub deliver_all : Snappy → Network × Raised → List (ℕ × List ℕ) → Network × Raised
unfolding reads_on deliver
deliver_all snappy r [] = r
deliver_all snappy r (c ∷ cs) =
    if reads_on r then deliver_all snappy (deliver snappy r.0 c) cs else r
