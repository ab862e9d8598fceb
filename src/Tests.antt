-- ===== src/Tests.antt =====
-- Concrete inputs: an engine, sample rows and servers, and the theorems at them.
pub mod SortEngine
pub mod Samples
pub mod StoreExamples
pub mod ServerExamples
pub mod ClientSamples
pub mod ClientExamples
pub mod ReportExamples
pub mod GatewayExamples
pub mod CollectorExamples
