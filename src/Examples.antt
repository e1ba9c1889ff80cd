-- ===== src/Examples.antt =====
-- Tests on concrete inputs, and each theorem at an input that meets its hypotheses.
mod Setup
mod StoreCases
mod SyncCases
mod HandlerCases
mod ConcurrencyCases
mod HistogramCases
mod TerminalCases
mod WorkloadCases
mod SandboxCases
mod ServiceCases
mod RestartCases
mod LifecycleCases
mod SessionCases
