-- ===== src/Sidecar/BucketAccessReconciler/Steps.antt =====
-- A policy that allows every call of a grant but the first is kept by the grant.
use cosi.Base.{List, arith}
use cosi.Errors.{Result, ok, err}
use cosi.Rpc.{GrantRequest, GrantResponse}
use cosi.Api.Meta.{NamespacedName}
use cosi.Api.Accesses.{BucketAccess}
use cosi.Api.Secrets.{Secret, Owning}
use cosi.Base.Dict.{Dict}
use cosi.Driver.{DriverInfo}
use cosi.Effects.{Call, Program, keeping, lift}
use cosi.Effects.Run.{Event}
use cosi.Effects.Safety.{Policy, Post, Safe, Safe-bind, Safe-weaken, Safe-seq}
use cosi.Sidecar.AccessConfig.{InternalGrantAccessConfig}
use cosi.Sidecar.AccessResponse.{GrantedAccessApiDetails}
use cosi.Sidecar.AccessSecrets.{get_and_validate_all_accessed_buckets, reserve_access_secrets}
use cosi.Sidecar.SecretFilling.{update_secrets_with_granted_info}
use cosi.Sidecar.AccessSecrets.Laws.{
  get_and_validate_all_accessed_buckets-Safe, reserve_access_secrets-Safe,
}
use cosi.Sidecar.AccessSecrets.Filling.{update_secrets_with_granted_info-Safe}
use cosi.Sidecar.BucketAccessReconciler.Compose.{Anything}
use cosi.Sidecar.BucketAccessReconciler.{
  protect, grant_config, ask_for_grant, check_response, complete, request_grant, grant,
}

pub record GrantAllowed (P : Policy) : Type 0 where
  pub orders : (g : List Event) → P g Call.order
  pub reads : (g : List Event) (n : NamespacedName) → P g (Call.get_bucket n)
  pub gets : (g : List Event) (n : NamespacedName) → P g (Call.get_secret n)
  pub creates : (g : List Event) (s : Secret) → P g (Call.create_secret s)
  pub updates : (g : List Event) (s : Secret) → P g (Call.update_secret s)
  pub asks : (g : List Event) (r : GrantRequest) → P g (Call.driver_grant_bucket_access r)
  pub writes : (g : List Event) (a : BucketAccess) → P g (Call.update_bucket_access_status a)

module _ (P : Policy) (owning : Owning) (driver : DriverInfo) (may : GrantAllowed P) where
  lifted :
      {A : Type 0} (h : List Event) (p : Program (Result A)) (a : BucketAccess)
      → Safe P (λ g r. Unit) h p
      → Safe P (Post Anything) h (lift p a)
  lifted h p a k =
      Safe-bind P (Post Anything) h p (keeping a)
        (Safe-weaken P h p (λ g. elim [ ok b ↦ λ q. tt | err e ↦ λ q. tt ]) k)

  config-Safe :
      (secrets : Dict Secret) (h : List Event) (a : BucketAccess)
      → Safe P (Post Anything) h (grant_config secrets a)
  unfolding grant_config
  config-Safe secrets h a = ground arith

  ask-Safe :
      (cfg : InternalGrantAccessConfig) (h : List Event) (a : BucketAccess)
      → Safe P (Post Anything) h (ask_for_grant cfg a)
  unfolding ask_for_grant
  ask-Safe cfg h a = grind (arith, may.orders, may.asks)

  check-Safe :
      (cfg : InternalGrantAccessConfig) (resp : GrantResponse) (h : List Event) (a : BucketAccess)
      → Safe P (Post Anything) h (check_response cfg resp a)
  unfolding check_response
  check-Safe cfg resp h a = ground arith

  complete-Safe :
      (details : GrantedAccessApiDetails) (h : List Event) (a : BucketAccess)
      → Safe P (Post Anything) h (complete details a)
  unfolding complete
  complete-Safe details h a = grind (arith, may.writes)

  request_grant-Safe :
      (cfg : InternalGrantAccessConfig) (h : List Event) (a : BucketAccess)
      → Safe P (Post Anything) h (request_grant cfg a)
  unfolding request_grant
  request_grant-Safe cfg h a =
      Safe-seq P Anything Anything (ask_for_grant cfg) _ h a (ask-Safe cfg h a) λ g resp a k.
        Safe-seq P Anything Anything (check_response cfg resp) _ g a (check-Safe cfg resp g a)
          λ g details a k.
            Safe-seq P Anything Anything (lift (update_secrets_with_granted_info cfg details)) _ g a
              (lifted g (update_secrets_with_granted_info cfg details) a (
                Safe-weaken P g (update_secrets_with_granted_info cfg details) (λ g r q. tt)
                  (update_secrets_with_granted_info-Safe P may.orders may.updates g cfg details)))
              (λ g u a k. complete-Safe details g a)

  pub grant-Safe :
      (h : List Event) (a : BucketAccess)
      → Safe P (Post Anything) h (protect a)
      → Safe P (Post Anything) h (grant owning driver a)
  unfolding grant
  grant-Safe h a first = Safe-seq P Anything Anything protect _ h a first λ g u a k.
      Safe-seq P Anything Anything
        (λ access. lift (get_and_validate_all_accessed_buckets driver access) access) _ g a
        (lifted g (get_and_validate_all_accessed_buckets driver a) a (
          Safe-weaken P g (get_and_validate_all_accessed_buckets driver a) (λ g r q. tt)
            (get_and_validate_all_accessed_buckets-Safe P driver may.reads g a)))
        λ g u a k.
          Safe-seq P Anything Anything
            (λ access. lift (reserve_access_secrets owning access) access) _ g a
            (lifted g (reserve_access_secrets owning a) a (
              Safe-weaken P g (reserve_access_secrets owning a) (λ g r q. tt)
                (reserve_access_secrets-Safe P owning may.gets may.creates may.updates g a)))
            λ g secrets a k.
              Safe-seq P Anything Anything (grant_config secrets) _ g a (config-Safe secrets g a)
                (λ g cfg a k. request_grant-Safe cfg g a)
