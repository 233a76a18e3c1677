-- ===== src/Tests.antt =====
-- Runs of the model on concrete programs and memories.
mod Samples
mod Processor
mod Tables
mod Devices
mod Panel
mod Buses
mod Debugging
mod Suite
