-- ===== src/Tests.antt =====
-- Runs of the models on concrete inputs, and the theorems applied to such inputs.
mod EvaluatorTests
mod RedisTests
mod BatcherTests
mod ScannerTests
mod StoreTests
mod ConfigTests
mod KeyTests
mod UsageTests
mod CursorTests
mod DecoderTests
mod ServiceTests
