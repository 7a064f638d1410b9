-- ===== src/Start.antt =====
-- cmd/service-provider-kro/main.go: the start of the program.
pub mod Options
pub mod Wiring
pub mod Wired
pub mod Outside
pub mod Steps
pub mod Program
pub mod Rules
pub mod Prepared
pub mod Init
pub mod Servers
