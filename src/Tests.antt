-- ===== src/Tests.antt =====
-- Concrete runs of the program's parts.
mod Frames
mod Acks
mod Transports
mod Servers
mod Clients
mod Networks
mod Dials
mod Steps
mod Endings
mod Pools
mod Keys
