-- ===== src/Utils.antt =====
-- src/utils: text helpers and address parsing.
pub mod Strings
pub mod Ipv4
