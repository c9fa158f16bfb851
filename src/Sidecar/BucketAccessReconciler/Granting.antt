-- ===== src/Sidecar/BucketAccessReconciler/Granting.antt =====
-- The driver is asked to grant an access only once its Buckets were checked and its Secrets reserved, and
-- the access is ready only once it was granted and its Secrets were written.
use cosi.Base.{String, ◌<>◌, ℕ, true, none, some, List, [], ◌≡◌, ◌≢◌, ◌⊎◌, inl, inr, refl, arith}
use mathlib.Core.Path.{subst, sym}
use cosi.Base.Dict.{Dict, has}
use cosi.Base.Lists.{All}
use cosi.Errors.{Error, Result, ok, err}
use cosi.Rpc.{GrantRequest, GrantResponse}
use cosi.Api.Meta.{NamespacedName}
use cosi.Api.Accesses.{BucketAccess}
use cosi.Api.Secrets.{Secret, Owning}
use cosi.Protocol.{protocol_to_rpc}
use cosi.Translator.{ValidationConfig, authentication_type_to_rpc}
use cosi.Driver.{DriverInfo}
use cosi.Effects.{Call, done, failed, lift, ◌>>◌}
use cosi.Effects.Run.{Event}
use cosi.Effects.Loops.{rearrange, All-rearrange}
use cosi.Effects.Safety.{Policy, Post, Safe, Safe-weaken, Safe-seq}
use cosi.Effects.History.{Saw, Saw-weaken, Saw-Lasts, All-Lasts, Lasts}
use cosi.Effects.Frame.{lift-Safe, keep-seq}
use cosi.Sidecar.AccessConfig.{InternalGrantAccessConfig, rpc_grant_buckets_list}
use cosi.Sidecar.AccessResponse.{
  GrantedAccessApiDetails, translate_driver_grant_bucket_access_response_to_api,
  validate_granted_access,
}
use cosi.Sidecar.AccessConfig.Laws.{rpc_grant_buckets_list-All, validate_granted_access_iff}
use cosi.Sidecar.AccessConfig.Requests.{
  IsIdOf, IsFor, new_internal_grant_access_config-IsFor, translate-Named,
}
use cosi.Sidecar.AccessSecrets.{
  get_and_validate_all_accessed_buckets, reserve_access_secrets, delete_owned_access_secrets,
}
use cosi.Sidecar.SecretFilling.{update_secrets_with_granted_info}
use cosi.Sidecar.AccessSecrets.Laws.{
  ReadyFor, IsOurs, delete_owned_access_secrets-Safe, get_and_validate_all_accessed_buckets-Safe,
  reserve_access_secrets-Safe,
}
use cosi.Sidecar.AccessSecrets.Filling.{IsFilled, update_secrets_with_granted_info-Safe}
use cosi.Sidecar.BucketAccessReconciler.Compose.{Anything, IsShown, reconcile_request-Safe}
use cosi.Sidecar.BucketAccessReconciler.{
  protect, grant_config, grant_request, ask_for_grant, check_response, complete, withdraw,
  driver_revoke_access, revoke, hand_back, request_grant, grant, reconcile_delete, reconcile,
  report, reconcile_request,
}

abbrev pub expected : BucketAccess → ValidationConfig
expected a = record {
  expected_protocol = a.spec.protocol;
  authentication_type = a.status.authentication_type;
}

module _ (owning : Owning) (driver : DriverInfo) where
  abbrev pub Checked : List Event → BucketAccess → Type 0
  Checked h a = All (λ ab. Saw (ReadyFor driver ab) h) a.status.accessed_buckets

  abbrev pub Reserved : List Event → BucketAccess → Type 0
  Reserved h a = All (λ ref. Saw (IsOurs owning a ref) h) a.spec.bucket_claims

  -- The request is for an access as the server had it, whose Buckets were all read and may be accessed,
  -- and whose Secrets were all read and did not exist or were controlled by it.
  abbrev pub Grantable : List Event → GrantRequest → Type 0
  Grantable h r =
      (a : BucketAccess) × Saw (IsShown a) h
      × Checked h a
      × Reserved h a
      × (r.account_name ≡ "ba-" <> a.metadata.uid)
      × (protocol_to_rpc a.spec.protocol ≡ ok r.protocol)
      × (authentication_type_to_rpc a.status.authentication_type ≡ ok r.authentication_type)
      × (r.parameters ≡ a.status.parameters)
      × All (λ b. IsIdOf a.status.accessed_buckets (b.bucket_id)) r.buckets

  -- The driver granted all buckets of the request, and its response has these details.
  abbrev pub Answered : BucketAccess → GrantedAccessApiDetails → Event → Type 0
  Answered w details (Call.driver_grant_bucket_access r, done resp) =
      (translate_driver_grant_bucket_access_response_to_api resp (expected w) ≡ ok details)
      × All (λ b. has (b.bucket_id) details.bucket_info_by_bucket_id ≡ true) r.buckets
  Answered w details _ = ⊥

  -- The written status is that of a grant, and the Secrets were written.
  abbrev pub IsGranted : List Event → BucketAccess → Type 0
  IsGranted h w =
      (details : GrantedAccessApiDetails) × (w.status.account_id ≡ details.account_id)
      × (details.account_id ≢ "")
      × Saw (Answered w details) h
      × All (λ e. Saw (IsFilled details.shared_credential_info e) h)
          details.bucket_info_by_bucket_id

  abbrev pub Grants : Policy
  Grants h (Call.driver_grant_bucket_access r) = Grantable h r
  Grants h (Call.update_bucket_access_status w) =
      (w.status.ready_to_use ≢ some true) ⊎ (w.status.error ≢ none) ⊎ IsGranted h w
  Grants h _ = Unit

  protect-Safe :
      (h : List Event) (a : BucketAccess)
      → Saw (IsShown a) h
      → Safe Grants (Post (λ g u a'. Saw (IsShown a') g)) h (protect a)
  unfolding protect
  protect-Safe h a s = ground arith

  grant_config-Safe :
      (secrets : Dict Secret) (h : List Event) (a : BucketAccess)
      → Safe Grants (Post (λ g cfg a'. (a' ≡ a) × IsFor a cfg)) h (grant_config secrets a)
  unfolding grant_config
  grant_config-Safe secrets h a = grind (arith, new_internal_grant_access_config-IsFor a secrets)

  rearranged-Ids :
      (choices : List ℕ) (a : BucketAccess) (cfg : InternalGrantAccessConfig)
      → IsFor a cfg
      → All
          (λ b. IsIdOf a.status.accessed_buckets (b.bucket_id))
          (rpc_grant_buckets_list (rearrange choices cfg.access_configs_by_bucket_id))
  rearranged-Ids choices a cfg (n, p, t, q, ids) =
      rpc_grant_buckets_list-All (IsIdOf a.status.accessed_buckets) _ (
        (All-rearrange (λ e. IsIdOf a.status.accessed_buckets (e.0)) choices
            cfg.access_configs_by_bucket_id).1
          ids)

  -- The driver granted this configuration.
  abbrev Requested : InternalGrantAccessConfig → GrantResponse → Event → Type 0
  Requested cfg resp (Call.driver_grant_bucket_access r, done resp') =
      (resp' ≡ resp)
      × ((choices : List ℕ) × (r
            ≡ grant_request cfg (rearrange choices cfg.access_configs_by_bucket_id)))
  Requested cfg resp _ = ⊥

  abbrev Prepared : BucketAccess → List Event → Type 0
  Prepared a h = Saw (IsShown a) h × Checked h a × Reserved h a

  Prepared-Lasts : (a : BucketAccess) → Lasts (Prepared a)
  Prepared-Lasts a e h (shown, checked, reserved) = (
    inr shown,
    All-Lasts (λ ab. Saw (ReadyFor driver ab)) a.status.accessed_buckets
        (λ ab. Saw-Lasts (ReadyFor driver ab)) e h checked,
    All-Lasts (λ ref. Saw (IsOurs owning a ref)) a.spec.bucket_claims
        (λ ref. Saw-Lasts (IsOurs owning a ref)) e h reserved,
  )

  ask_for_grant-Safe :
      (cfg : InternalGrantAccessConfig) (h : List Event) (a : BucketAccess)
      → Prepared a h
      → IsFor a cfg
      → Safe Grants
          (Post (λ g resp a'. (a' ≡ a) × Saw (Requested cfg resp) g))
          h
          (ask_for_grant cfg a)
  unfolding ask_for_grant
  ask_for_grant-Safe cfg h a prepared (n, p, t, q, ids) = (
    tt,
    λ choices. (
      let (shown, checked, reserved) = Prepared-Lasts a (Call.order, choices) h prepared in
          (a, shown, checked, reserved, n, p, t, q, rearranged-Ids choices a cfg (n, p, t, q, ids)),
      elim [ done resp ↦ (refl, inl (refl, (choices, refl))) | failed c text ↦ ground arith ],
    ),
  )

  -- The response translates to these details, and they are those of what was asked for.
  abbrev Accepted :
      BucketAccess → InternalGrantAccessConfig → GrantResponse → GrantedAccessApiDetails → Type 0
  Accepted a cfg resp details =
      (translate_driver_grant_bucket_access_response_to_api resp (expected a) ≡ ok details)
      × (validate_granted_access cfg details ≡ ok tt)

  check_response-Safe :
      (cfg : InternalGrantAccessConfig) (resp : GrantResponse) (h : List Event) (a : BucketAccess)
      → Safe Grants
          (Post (λ g details a'. (a' ≡ a) × Accepted a cfg resp details))
          h
          (check_response cfg resp a)
  unfolding check_response
  check_response-Safe cfg resp h a = ground arith

  Requested-Answered :
      (a : BucketAccess) (cfg : InternalGrantAccessConfig) (resp : GrantResponse)
      (details : GrantedAccessApiDetails) (e : Event)
      → Accepted a cfg resp details
      → Requested cfg resp e
      → Answered a details e
  Requested-Answered a cfg resp details (Call.driver_grant_bucket_access r, done resp') (t, valid)
        (same, (choices, eq)) =
      (
        subst
            (λ x. translate_driver_grant_bucket_access_response_to_api x (expected a) ≡ ok details)
            (sym same) t,
        subst
            (λ (x : GrantRequest).
              All (λ b. has (b.bucket_id) details.bucket_info_by_bucket_id ≡ true) x.buckets)
            (sym eq)
            (rpc_grant_buckets_list-All (λ id. has id details.bucket_info_by_bucket_id ≡ true) _
              ((All-rearrange (λ e. has (e.0) details.bucket_info_by_bucket_id ≡ true) choices
                  cfg.access_configs_by_bucket_id).1
                (((validate_granted_access_iff cfg details).0 valid).0))),
      )
  Requested-Answered a cfg resp details e t r = absurd r

  complete-Safe :
      (details : GrantedAccessApiDetails) (h : List Event) (a : BucketAccess)
      → details.account_id ≢ ""
      → Saw (Answered a details) h
      → All
          (λ e. Saw (IsFilled details.shared_credential_info e) h)
          details.bucket_info_by_bucket_id
      → Safe Grants (Post (λ g u a'. Unit)) h (complete details a)
  unfolding complete
  complete-Safe details h a n answered filled =
      (inr (inr (details, refl, n, answered, filled)), elim [ done b ↦ tt | failed k text ↦ tt ])

  record_grant-Safe :
      (a : BucketAccess) (cfg : InternalGrantAccessConfig) (details : GrantedAccessApiDetails)
      (h : List Event)
      → Saw (Answered a details) h × (details.account_id ≢ "")
      → Safe Grants
          (Post Anything)
          h
          ((lift (update_secrets_with_granted_info cfg details) >> complete details) a)
  record_grant-Safe a cfg details h k =
      keep-seq Grants (λ g. Saw (Answered a details) g × (details.account_id ≢ ""))
        (λ e g k. (inr (k.0), k.1))
        (λ g u.
          All (λ e. Saw (IsFilled details.shared_credential_info e) g)
            details.bucket_info_by_bucket_id)
        Anything (lift (update_secrets_with_granted_info cfg details)) (λ u. complete details) h a k
        (lift-Safe Grants _ h (update_secrets_with_granted_info cfg details) a (
          Safe-weaken Grants h (update_secrets_with_granted_info cfg details)
            (λ g r all u eq. all eq)
            (update_secrets_with_granted_info-Safe Grants (λ g. tt) (λ g s. tt) h cfg details)))
        (λ g u k filled. complete-Safe details g a (k.1) (k.0) filled)

  request_grant-Safe :
      (a : BucketAccess) (cfg : InternalGrantAccessConfig) (h : List Event)
      → Prepared a h
      → IsFor a cfg
      → Safe Grants (Post Anything) h (request_grant cfg a)
  unfolding request_grant
  request_grant-Safe a cfg h prepared for_a =
      keep-seq Grants (λ g. Unit) (λ e g k. tt) (λ g resp. Saw (Requested cfg resp) g) Anything
        (ask_for_grant cfg) _ h a tt (ask_for_grant-Safe cfg h a prepared for_a)
        λ g resp k asked.
          keep-seq Grants (λ g. Saw (Requested cfg resp) g) (Saw-Lasts (Requested cfg resp))
            (λ g details. Accepted a cfg resp details) Anything (check_response cfg resp) _ g a
            asked (check_response-Safe cfg resp g a)
            λ g details asked accepted. record_grant-Safe a cfg details g (
              Saw-weaken g (λ e. Requested-Answered a cfg resp details e accepted) asked,
              (translate-Named (expected a) resp details (accepted.0)).1,
            )

  grant-Safe :
      (h : List Event) (a : BucketAccess)
      → Saw (IsShown a) h
      → Safe Grants (Post Anything) h (grant owning driver a)
  unfolding grant
  grant-Safe h a shown =
      Safe-seq Grants (λ g u a'. Saw (IsShown a') g) Anything protect _ h a (protect-Safe h a shown)
        λ g u a shown.
          keep-seq Grants (λ g. Saw (IsShown a) g) (Saw-Lasts (IsShown a)) (λ g u. Checked g a)
            Anything (λ access. lift (get_and_validate_all_accessed_buckets driver access) access) _
            g a shown
            (lift-Safe Grants _ g (get_and_validate_all_accessed_buckets driver a) a (
              Safe-weaken Grants g (get_and_validate_all_accessed_buckets driver a)
                (λ g r all u eq. all eq)
                (get_and_validate_all_accessed_buckets-Safe Grants driver (λ g n. tt) g a)))
            λ g u shown checked.
              keep-seq Grants (λ g. Saw (IsShown a) g × Checked g a)
                (λ e g k. (
                  inr (k.0),
                  All-Lasts (λ ab. Saw (ReadyFor driver ab)) a.status.accessed_buckets
                      (λ ab. Saw-Lasts (ReadyFor driver ab)) e g (k.1),
                ))
                (λ g secrets. Reserved g a) Anything
                (λ access. lift (reserve_access_secrets owning access) access) _ g a
                (shown, checked)
                (lift-Safe Grants _ g (reserve_access_secrets owning a) a (
                  reserve_access_secrets-Safe Grants owning (λ g n. tt) (λ g s. tt) (λ g s. tt) g
                    a))
                λ g secrets k reserved.
                  keep-seq Grants (Prepared a) (Prepared-Lasts a) (λ g cfg. IsFor a cfg) Anything
                    (grant_config secrets) request_grant g a (k.0, k.1, reserved)
                    (grant_config-Safe secrets g a)
                    (λ g cfg prepared for_a. request_grant-Safe a cfg g prepared for_a)

  withdraw-Safe : (h : List Event) (a : BucketAccess) → Safe Grants (Post Anything) h (withdraw a)
  unfolding withdraw
  withdraw-Safe h a = ground arith

  revoke-Safe : (h : List Event) (a : BucketAccess) → Safe Grants (Post Anything) h (revoke a)
  unfolding revoke driver_revoke_access
  revoke-Safe h a = ground arith

  hand_back-Safe : (h : List Event) (a : BucketAccess) → Safe Grants (Post Anything) h (hand_back a)
  unfolding hand_back
  hand_back-Safe h a = ground arith

  reconcile_delete-Safe :
      (h : List Event) (a : BucketAccess)
      → Safe Grants (Post Anything) h (reconcile_delete owning driver a)
  unfolding reconcile_delete
  reconcile_delete-Safe h a =
      Safe-seq Grants Anything Anything withdraw _ h a (withdraw-Safe h a) λ g u a k.
        keep-seq Grants (λ g. Unit) (λ e g k. tt) (λ g u. Unit) Anything
          (λ access. lift (delete_owned_access_secrets owning access) access) _ g a tt
          (lift-Safe Grants _ g (delete_owned_access_secrets owning a) a (
            Safe-weaken Grants g (delete_owned_access_secrets owning a) (λ g r all u eq. tt)
              (delete_owned_access_secrets-Safe Grants owning (λ g n. tt) (λ g s. tt) (λ g s. tt)
                (λ g s. tt) g a)))
          λ g u k r.
            Safe-seq Grants Anything Anything revoke _ g a (revoke-Safe g a)
              (λ g u a k. hand_back-Safe g a)

  reconcile-Safe :
      (h : List Event) (a : BucketAccess)
      → Saw (IsShown a) h
      → Safe Grants (Post Anything) h (reconcile owning driver a)
  unfolding reconcile
  reconcile-Safe h a shown = ground (arith, reconcile_delete-Safe h a, grant-Safe h a shown)

  module _ (render : Error → String) where
    report-Safe :
        (h : List Event) (p : Result (Unit {0}) × BucketAccess)
        → Safe Grants (λ g o. Unit) h (report owning driver render p)
    unfolding report
    report-Safe h (err e, a) = ground arith
    report-Safe h (ok u, a) = tt

    -- In every run of the sidecar's `Reconcile` of a BucketAccess, whatever the API server and the
    -- driver answer: the driver is asked to grant an access only for an object that the server showed,
    -- after each of its accessed Buckets was read and found to be this driver's, provisioned under the
    -- recorded non-empty ID and not being deleted (nor its claim), and after the Secret of each
    -- reference was read and found missing or controlled by the access; the request's account name is
    -- made of the object's UID, its protocol, authentication type and parameters are those of the
    -- object, and its bucket IDs are IDs of the accessed buckets. And a status that is ready, with no
    -- error, is written only with a non-empty account ID of a response of the driver that granted every
    -- requested bucket, after a Secret was written with the response's credentials and the info of each
    -- granted bucket.
    pub reconcile_request-Grants :
        (req : NamespacedName)
        → Safe Grants (λ g o. Unit) [] (reconcile_request owning driver render req)
    reconcile_request-Grants req =
        reconcile_request-Safe Grants owning driver render req tt
          (λ a m. reconcile-Safe _ a (inl refl)) report-Safe
