-- ===== src/Tests.antt =====
-- Concrete inputs: tests of the definitions, and instances of the theorems.
mod Merging
mod Overriding
mod Starting
mod Meter
mod Listener
mod Manifest
mod Deployment
mod Updating
mod Supervising
mod Remembering
mod Replacing
