-- ===== src/Tests.antt =====
-- Runs of src/property_delta.cpp, src/property_delta_store.cpp and src/property_delta_manifest.cpp on
-- small inputs, and the theorems applied to them.
pub mod Data
mod DeltaFiles
mod Views
mod Manifests
mod Submissions
mod Stores
mod VersionSets
mod Tables
mod Compactions
