-- ===== src/Network/Resolving.antt =====
-- The constructor of ColumnStoreNetwork, of src/util_network.cpp.
use mariadb_columnstore_api.Prelude.{ℕ, List, [], ◌∷◌, true, false}
use mariadb_columnstore_api.Messaging.{empty}
use mariadb_columnstore_api.Messaging.Bytes.{bytes_eq}
use mariadb_columnstore_api.Network.{Network, ConStatus, ErrMsg, Raised, UvStatus}
use UvStatus.{success, failed}

-- "127.0.0.1"
abbrev localhost : List ℕ
localhost = b'1' ∷ b'2' ∷ b'7' ∷ b'.' ∷ b'0' ∷ b'.' ∷ b'0' ∷ b'.' ∷ b'1' ∷ []

-- The members before the name is resolved; no message is allocated.
abbrev unresolved : Network
unresolved = record {
  con_status = ConStatus.no_status;
  message_out = empty;
  deleted = true;
  data_in_buffer = 0;
  is_localhost = false;
  err_msg = ErrMsg.no_message;
}

-- The constructor; `started` is what uv_getaddrinfo returns.
unfoldable pub resolve : List ℕ → UvStatus → Network × Raised
unfolding bytes_eq
resolve host (failed e) =
    (record unresolved { con_status = ConStatus.connect_error }, Raised.network_error)
resolve host success = (
  record unresolved { con_status = ConStatus.connecting; is_localhost = bytes_eq host localhost },
  Raised.returned,
)
