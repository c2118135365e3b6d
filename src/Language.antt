-- ===== src/Language.antt =====
-- What the compiler expects of a C library, and number printing (src/LanguageFeatures,
-- header/LanguageFeatures).
pub mod Bytes
pub mod Digits
pub mod Pointer
