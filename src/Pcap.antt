-- ===== src/Pcap.antt =====
-- pcap_modidy/ewx_pcap.c: a reader of packet captures that maps the file window by window.
pub mod Words
pub mod State
pub mod Window
pub mod Read
pub mod Open
pub mod Invariant
pub mod Front
pub mod Flat
pub mod Opened
pub mod Endian
pub mod Simple
pub mod Counting
mod Tests
