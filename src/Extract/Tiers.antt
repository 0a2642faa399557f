-- ===== src/Extract/Tiers.antt =====
-- The four extraction tiers (module3-ai-worker/app/services/extraction/tier*.py).
pub mod Regex
pub mod Crossref
pub mod Nlp
pub mod Bedrock
