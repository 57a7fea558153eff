-- ===== src/Tests.antt =====
-- Runs of the model on small inputs, and the theorems at inputs that meet their hypotheses.
mod Stacks
mod Tables
mod Requests
mod Responses
mod Hosts
mod Lists
mod HashTable
mod SlowNet
mod Sends
mod Relays
mod Links
mod Refusals
mod Pieces
mod Prefetches
mod Disk
mod Workers
mod Servers
mod Running
mod Clients
mod Drivers
