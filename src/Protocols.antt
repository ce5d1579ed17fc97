-- ===== src/Protocols.antt =====
-- pkg/layers: the header tables of the protocols, the registrations at startup, and the hooks that
-- compute lengths and checksums.
pub mod Tables
pub mod Others
pub mod Hooks
pub mod Registrations
mod Tests
