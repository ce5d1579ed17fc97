-- ===== src/Asn1.antt =====
-- pkg/asn1/ber.go: the Basic Encoding Rules for the types of SNMP, LDAP and Kerberos.
pub mod Length
pub mod Tlv
pub mod Integer
pub mod Oid
pub mod Types
mod Tests
