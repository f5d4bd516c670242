-- ===== src/Net.antt =====
-- What the program uses of Go's package net: addresses and masks after To4, as four bytes.
pub mod Ip
pub mod Mask
pub mod Parse
