-- ===== src/Message/Examples.antt =====
-- Tests and instances of the theorems about pkg/message.
mod Queues
mod OutboxRuns
mod Producing
