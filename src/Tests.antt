-- ===== src/Tests.antt =====
-- Runs of the model at concrete inputs.
mod Data
mod Transfers
mod Splits
mod Caps
mod Books
mod Sleeves
mod Judgments
mod Taps
mod Agreements
mod Hosts
mod Retaps
