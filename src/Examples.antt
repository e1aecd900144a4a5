-- ===== src/Examples.antt =====
-- The machines on which the theorems are instantiated, and the instances, by component.
mod Hosts
mod ConvertExamples
mod TargetExamples
mod ScaleExamples
mod InstantExamples
mod BenchExamples
mod RaceExamples
mod SkewExamples
mod SourcesExamples
mod OrderExamples
mod ElapsedExamples
mod UnitTestsExamples
mod InterleavedExamples
mod RecalibrateExamples
