-- ===== src/Tests.antt =====
-- One world in which the program can run, tests of the definitions in it, and each theorem that has
-- hypotheses at an input where they hold.
mod World
mod Input
mod Net
mod Mdns
mod Program
mod Client
mod Together
