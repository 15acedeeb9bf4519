-- ===== src/Examples.antt =====
-- The theorems at concrete inputs.
mod Pool
mod Setup
mod Area
mod Queues
mod Sync
mod Translate
mod File
mod Control
mod Rounds
mod Gpu
mod Progress
mod Lists
mod Services
mod Device
mod Module
mod System
mod Boot
mod Cuda
mod Cache
mod Client
