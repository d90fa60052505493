-- ===== src/Corpus.antt =====
-- packages/marx_engels/corpus_registry: the collected works and their identifiers.
pub mod Ids
