-- ===== src/Examples.antt =====
-- Runs of the model on small tables: the tests of the definitions, and the theorems at inputs at
-- which their conditions hold.
mod World
mod Desk
mod Accounts
mod Mail
mod Redis
mod Api
mod Office
mod Gallery
