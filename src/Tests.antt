-- ===== src/Tests.antt =====
-- Runs of the engines on concrete inputs, and the theorems at inputs that meet their hypotheses.
mod Sessions
mod CallExamples
mod DirectoryExamples
mod RaceExamples
mod MpExamples
mod ExampleExamples
mod TthExamples
mod SessionExamples
mod LockExamples
