-- ===== src/Tests.antt =====
-- Runs of the model on concrete data, and each theorem at an input where its hypotheses hold.
mod Fixtures
mod Reporting
mod Debt
mod Configs
mod Graphs
mod Printing
mod Auditing
mod Packages
