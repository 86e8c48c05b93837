-- ===== src/Device.antt =====
-- Package device (mind-palace/server/device/device.go): the device-code login of the clued server.
pub mod Codes
pub mod Tokens
pub mod Flow
pub mod Grantable
pub mod Approval
pub mod Invariant
pub mod Calls
pub mod Answers
pub mod Handover
pub mod History
pub mod Spelling
pub mod TokenStore
