-- ===== src/Tests.antt =====
-- Runs of the model, and the theorems at concrete inputs.
mod JsonRuns
mod JsonExamples
mod PathExamples
mod WriterExamples
mod TransferExamples
mod SocketExamples
mod DiskExamples
mod AppExamples
mod TlsExamples
mod EventExamples
mod ServerExamples
mod ConfigExamples
mod ListExamples
mod ClientExamples
