-- ===== src/Examples.antt =====
-- The theorems on a run at a concrete plugin and system, and runs that show their hypotheses can hold.
mod Sample
mod Pipes
mod Prompts
mod Lists
mod Codes
mod Layouts
mod Threads
mod Waits
mod Commands
mod Loops
mod Lives
