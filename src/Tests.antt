-- ===== src/Tests.antt =====
-- The theorems at concrete inputs: a machine with 4 KiB pages and little-endian words (World), and
-- one child for each part of the driver.
mod World
mod Desc
mod Mapper
mod Transfer
mod Engine
mod Mmap
mod Bars
mod Init
mod Driver
mod Lifecycle
mod Lock
mod HexDump
mod RegRw
mod SelfTest
mod Write
mod Card
mod Gate
mod LogStream
mod TestProgram
