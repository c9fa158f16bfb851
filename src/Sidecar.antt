-- ===== src/Sidecar.antt =====
-- The sidecar's reconcilers: sidecar/pkg/reconciler.
pub mod BucketId
pub mod Connection
pub mod BucketSteps
pub mod BucketReconciler
pub mod AccessConfig
pub mod AccessResponse
pub mod AccessSecrets
pub mod SecretFilling
pub mod BucketAccessReconciler
