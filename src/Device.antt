-- ===== src/Device.antt =====
-- The device plugin: what a node's file says of its boards, and what of it is told to Kubernetes.
pub mod Provider
pub mod Plugin
pub mod Server
pub mod Paths
pub mod Keys
pub mod Client
pub mod Sitter
pub mod Serving
pub mod Types
pub mod Locator
