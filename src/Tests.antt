-- ===== src/Tests.antt =====
-- Theorems applied at small inputs, component by component.
mod Samples
mod Toy
mod Ondemand
mod Arenas
mod Trees
mod Corpus
mod Drivers
mod Formats
mod Text
mod Threads
mod Loading
mod Engines
mod Streams
