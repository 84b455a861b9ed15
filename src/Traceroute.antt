-- ===== src/Traceroute.antt =====
-- Fingerprinting/Traceroute/traceroute.c; Network_Mapping/Traceroute/Traceroute.c is the same
-- program up to blanks and a comment.
pub mod Packet
pub mod Route
