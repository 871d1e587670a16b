-- ===== src/W3cdid.antt =====
-- DID documents and DID URLs (pkg/did/w3cdid).
pub mod Document
pub mod Url
pub mod Valid
