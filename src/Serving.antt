-- ===== src/Serving.antt =====
-- A client's request from its arrival to the write of its response: the front process
-- (netio/src/tcp_net_handler.cpp, netio/src/netio_user_event_handler.cpp, netio/src/reactor.cpp) and
-- the containers (netio/src/container_user_event_handler.cpp).
pub mod Front
pub mod Kept
pub mod Written
pub mod Whole
pub mod Forged
pub mod Relay
pub mod System
