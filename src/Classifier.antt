-- ===== src/Classifier.antt =====
-- issue_classifier.py, a module to each part: the texts of the issue types, the severities, the steps of reproduction, the six
-- checks, and their composition.
pub mod Meta
pub mod Severity
pub mod Repro
pub mod Checks
pub mod Classify
