-- ===== src/Tests.antt =====
-- Runs of the code on small inputs, and each theorem at an input that meets its hypotheses.
mod AppNamespace
mod RateLimit
mod Releases
mod Deployments
mod Otp
mod Access
mod Gateway
mod Live
mod Compatibility
mod Kv
mod Update
mod Archive
mod Uploads
mod GlobalIdentity
mod Llm
mod Backends
