-- ===== src/Runner.antt =====
-- agent/runner.py: the parts of the turn loop that decide on its history, its queue of steering
-- prompts and its progress. The loop itself, which awaits the provider and the tools, is left out.
pub mod Repair
pub mod Targets
mod Tests
