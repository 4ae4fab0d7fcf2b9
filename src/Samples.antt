-- ===== src/Samples.antt =====
-- Runs of the lint program at concrete inputs.
mod Lint
mod Files
mod Nesting
mod Cli
mod Names
mod Inside
mod Loops
mod Headers
mod Process
