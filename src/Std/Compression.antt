-- ===== src/Std/Compression.antt =====
-- The library that src/util_network.cpp compresses packets with: a parameter of the model.
use mariadb_columnstore_api.Prelude.{ℕ, ◌<◌, ◌≡◌, List, Option, some, length}

-- snappy::RawCompress, snappy::GetUncompressedLength and snappy::RawUncompress on whole strings.
pub record Snappy : Type 0 where
  pub raw_compress : List ℕ → List ℕ
  pub uncompressed_length : List ℕ → Option ℕ
  pub raw_uncompress : List ℕ → Option (List ℕ)

-- What its documentation promises: what was compressed is uncompressed to itself, and compressed
-- bytes start with the length of what was compressed, so there is at least one.
pub record IsSnappy (snappy : Snappy) : Type 0 where
  pub starts_with_length : (bytes : List ℕ) → 0 < length (snappy.raw_compress bytes)
  pub length_back :
      (bytes : List ℕ)
      → snappy.uncompressed_length (snappy.raw_compress bytes) ≡ some (length bytes)
  pub bytes_back : (bytes : List ℕ) → snappy.raw_uncompress (snappy.raw_compress bytes) ≡ some bytes
