-- ===== src/DiffEngine.antt =====
-- diff_engine.py, a module to each part: the similarity of two bodies, the flattening of JSON, the
-- identifiers in a body, the comparison of fields, and the comparison of two responses.
pub mod Similarity
pub mod Flatten
pub mod Ids
pub mod Fields
pub mod Compare
