-- ===== src/Examples.antt =====
-- The theorems at concrete inputs: a node with two boards, and pods that ask for orins of it.
mod Data
mod Device
mod Books
mod Widening
mod Caches
mod Binding
mod Placing
mod Control
mod Plugins
mod Pool
mod Passing
mod Races
mod Served
mod Servers
mod Program
