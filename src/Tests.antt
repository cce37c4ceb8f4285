-- ===== src/Tests.antt =====
-- Concrete inputs for the theorems about the kernel's and the libraries' code, by part.
mod Pages
mod Boot
mod Updates
mod Devices
mod Tasks
mod Executables
mod Heaps
mod Files
mod Listings
