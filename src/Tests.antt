-- ===== src/Tests.antt =====
-- The theorems at concrete inputs, and small runs of the definitions.
mod Values
mod Api
mod Manual
mod Onboarding
mod FirstServer
mod Token
mod App
mod Policies
mod Pages
mod Graph
mod Tables
mod Links
mod Imports
mod Streams
mod Shown
mod Overview
