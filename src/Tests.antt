-- ===== src/Tests.antt =====
-- Runs at concrete inputs, and each theorem at an input that meets its hypotheses.
mod AssetRuns
mod HostRuns
mod KeyringRuns
mod KitRuns
mod LifetimeRuns
mod PayloadRuns
mod ServingRuns
mod SessionRuns
mod ShoutcastRuns
mod SpaceRuns
mod SymbolRuns
mod TcpRuns
mod TomeRuns
