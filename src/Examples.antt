-- ===== src/Examples.antt =====
-- Concrete states, tests, and the theorems at inputs that meet their hypotheses.
mod States
mod Lists
mod Scheduling
mod Locks
mod Pages
mod Threading
mod Traps
mod Images
mod Texts
mod Screens
mod Prints
mod Starting
mod Building
mod Returning
mod Lines
