-- ===== src/Helm.antt =====
-- helm/v3: the release client, and above all its self-healing `Reconcile`.
pub mod Stripped
pub mod Api
pub mod Run
pub mod Duplicates
pub mod Client
pub mod Manifest
pub mod Reconcile
