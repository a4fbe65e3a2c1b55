-- ===== src/ConfigSchema.antt =====
-- src/models/config_schema.py: which configurations a request may carry. Json has the values,
-- Classes the classes of the schema with their validators, Check the walk over a class and
-- `validate_config_json`; the others are proofs.
pub mod Json
pub mod Check
pub mod Classes
pub mod Conforms
pub mod Fields
pub mod Values
