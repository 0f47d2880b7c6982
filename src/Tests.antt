-- ===== src/Tests.antt =====
-- Runs of the definitions on concrete inputs, and the theorems at concrete inputs.
mod BytesTests
mod NicTests
mod PacketTests
mod Socks5Tests
mod ConcurrencyTests
mod NetTests
mod LoopTests
mod FormatTests
mod KernelTests
mod EndingTests
mod SessionTests
mod OwnershipTests
mod SweepTests
mod RaceTests
mod MainTests
mod GroupTests
