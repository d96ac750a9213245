-- ===== src/Examples.antt =====
-- Tests of the definitions, and the theorems at concrete inputs.
mod Data
mod Expiry
mod Server
mod Table
mod Start
mod Sql
mod System
mod Unique
mod Redis
mod Leases
mod Codes
mod Memory
mod Service
mod Http
