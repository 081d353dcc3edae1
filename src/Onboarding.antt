-- ===== src/Onboarding.antt =====
-- frontend/src/pages/Onboarding.tsx: the first-run wizard.
pub mod Storage
pub mod Wizard
pub mod Auth
pub mod AuthControls
pub mod FirstServer
pub mod Token
pub mod Requests
pub mod View
pub mod TokenStep
