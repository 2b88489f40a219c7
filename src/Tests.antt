-- ===== src/Tests.antt =====
-- The theorems of the library at concrete states, and runs of the model functions.
mod Lists
mod Memory
mod Screen
mod Console
mod Free
mod Tool
mod Tasks
mod Drivers
mod Kernel
mod Events
mod Session
mod Spaces
mod Disk
mod Input
mod Virtual
mod Image
mod Processes
