-- ===== src/Toml.antt =====
-- TOML: the parser and the queries of src/halite/src/toml.c, and the quoting of src/halite/src/repo.c
-- and src/halite/src/pkg.c.
pub mod Parsed
pub mod Strings
pub mod Values
pub mod Document
pub mod Quote
pub mod Query
