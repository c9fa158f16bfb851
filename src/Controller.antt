-- ===== src/Controller.antt =====
-- The controller's reconcilers: controller/pkg/reconciler.
pub mod Binding
pub mod AccessRules
pub mod AccessClaims
pub mod BucketAccessReconciler
pub mod ClaimProvision
pub mod ClaimDeletion
pub mod BucketClaimReconciler
