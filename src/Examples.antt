-- ===== src/Examples.antt =====
-- Runs of the modelled program at concrete inputs.
mod Headers
mod Quotas
mod Queues
mod Circuits
mod Bodies
mod Counters
mod Caches
mod Forwarding
mod Answers
mod Keys
mod Streams
