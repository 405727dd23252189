-- ===== src/Tests.antt =====
-- Runs of the model on concrete inputs, and the theorems at inputs where their hypotheses hold.
mod Sample
mod Queue
mod Delivery
mod Protocol
mod Runtime
mod Session
mod Intake
mod Worker
mod Reader
mod FinalCycle
mod FinalTags
mod FinalSender
