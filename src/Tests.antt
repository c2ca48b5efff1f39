-- ===== src/Tests.antt =====
-- Concrete runs of the theorems, each at an input where its conditions hold.
mod Sessions
mod Ports
mod Frames
mod Databases
mod Replies
mod Echoes
mod Daemon
mod Streams
mod Stores
mod Sockets
mod Timers
mod Policy
mod Texts
mod Service
mod Enforcement
mod Switches
