-- ===== src/Tests.antt =====
-- Runs of the model and instances of its theorems at concrete inputs.
mod Toy
mod ToyBolt
mod Streams
mod Runs
mod Store
mod Connection
mod Hooks
mod Tool
mod Discovery
mod Drivers
mod Config
mod Commands
mod Databases
