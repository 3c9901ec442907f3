-- ===== src/Tests.antt =====
-- Concrete hands, pools and tables, and each general statement applied to one of them.
mod Hands
mod Pools
mod Tables
mod Frames
mod Commands
mod Texts
