-- ===== src/Tests.antt =====
-- Runs of the model on small inputs, with simple stand-ins for the packages.
mod Demo
mod Chains
mod Counting
mod Contracts
mod Settling
mod Rebuilding
mod Shallow
mod Preparing
mod Standing
mod Returning
mod Generating
mod Hosting
mod Accepting
