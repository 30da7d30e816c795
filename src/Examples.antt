-- ===== src/Examples.antt =====
-- Runs of the model on concrete inputs, which show that the conditions of the theorems can hold.
mod Data
mod Channels
mod Runs
mod Calls
mod Rings
mod Slots
mod Handoffs
mod Handovers
mod Papers
mod Outlines
