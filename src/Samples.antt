-- ===== src/Samples.antt =====
-- Runs of the model at concrete inputs, and each theorem at one of them.
mod DomainSamples
mod StoreData
mod StoreSamples
mod QueueSamples
mod WorkerSamples
mod ServiceSamples
mod HybridSamples
mod ProtocolSamples
mod IntegrationSamples
mod BindRunnerSamples
mod RecoverySamples
mod RuntimeSamples
mod WriteSamples
