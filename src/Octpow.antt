-- ===== src/Octpow.antt =====
-- c-study/host-ac-test/octpow: the client side of the EACP protocol, by which the access controller
-- `ac_cli` configures the data plane. One function of com_octpow_sendpacket.c builds each message
-- and hands it to a raw socket; com_octpow_sendpacket.h has the codes and the structs.
pub mod Wire
pub mod Codes
pub mod Send
pub mod Basic
pub mod Wtp
pub mod Sta
pub mod Acl
pub mod Alarm
pub mod Dispatch
pub mod Header
pub mod Payload
pub mod Replies
mod Tests
