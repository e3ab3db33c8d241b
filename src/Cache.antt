-- ===== src/Cache.antt =====
-- The statistics cache (netio/include/mod_hash_v1.h, netio/include/mod_hash_v1_iterator.h,
-- netio/include/intf_chunkedindex.h, netio/src/cache_manager.cpp).
pub mod Hash
pub mod Index
pub mod Manager
