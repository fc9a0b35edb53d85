-- ===== src/Errors.antt =====
-- The exceptions of the repository, one constructor for each `throw`. Most are std::runtime_error
-- with a message of their own, which is what the constructor stands for.
use logger_high.Base.{Result}

pub data Error : Type 0 where
  -- crypt/aes_gcm_cipher.cpp
  key_not_32_bytes nonce_counter_exhausted encrypt_failed ciphertext_too_short : Error
  auth_tag_failed : Error
  -- crypt/server_key_loader.cpp
  key_file_missing key_file_stat_failed key_file_size_mismatch key_file_open_failed : Error
  key_file_short_read : Error
  -- crypt/x25519_agreement.cpp
  peer_public_not_32_bytes agree_failed : Error
  -- crypt/kdf.cpp
  hkdf_failed : Error
  -- compress/zlib_compressor.cpp
  zlib_level_out_of_range deflate_init_failed deflate_failed inflate_init_failed : Error
  inflate_failed : Error
  -- formatter/effective_formatter.cpp
  serialize_failed : Error
  -- sinks/shard_writer.cpp
  eph_pub_not_32_bytes shard_limit_too_small shard_dir_failed shard_open_failed : Error
  short_header_write : Error
  -- sinks/effective_sink.cpp
  null_component null_strand : Error
  -- audit/shard_reader.cpp
  short_header magic_mismatch unsupported_algo server_priv_not_32_bytes : Error
  audit_eph_pub_not_32_bytes audit_agree_failed cannot_open_shard truncated_frame_length : Error
  frame_too_small short_frame_body proto_parse_failed not_a_directory : Error
  -- examples/log_decoder.cpp
  target_missing private_key_not_opened private_key_not_32_bytes target_neither : Error
  -- mmap/mmap_store.cpp and mmap/mmap_region.cpp
  store_strand_null store_persist_null region_size_zero region_open_failed : Error
  region_resize_failed region_mapping_failed region_map_failed region_sync_failed : Error

-- What a function of the repository returns or throws.
abbrev pub Throwing : Type 0 → Type 0
Throwing A = Result Error A
