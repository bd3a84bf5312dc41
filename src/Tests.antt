-- ===== src/Tests.antt =====
-- Concrete parameters, the properties at concrete inputs, and runs of the definitions.
mod SampleNumbers
mod SampleScan
mod IntegerTests
mod ValueTests
mod ScanTests
mod MethodTests
mod ApiTests
mod SampleArrays
mod ArrayTests
mod SampleHashes
mod HashTests
mod ConvertTests
mod LazyTests
mod SymbolTests
mod BlockTests
mod TimeTests
mod SampleTyped
mod TypedTests
mod TaskTests
mod MutexTests
mod MemoryTests
