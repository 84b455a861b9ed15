-- ===== src/Tests.antt =====
-- The theorems at concrete inputs, and runs of the code that can be followed in the source.
mod Packets
mod Queries
mod Replies
mod Scans
mod Chats
mod Whoises
mod Raws
mod Rooms
mod Hosts
mod Threads
