-- ===== src/Sidecar/BucketAccessReconciler/Revoking.antt =====
-- An access that is being deleted is handed back to the controller only once its Secrets are gone and
-- the driver revoked it.
use cosi.Base.{
  String, true, false, none, some, List, [], ◌∷◌, ◌≡◌, ◌≢◌, ◌⊎◌, inl, inr, refl, ◌!=◌, arith,
}
use cosi.Base.Dict.{has}
use cosi.Base.Lists.{All, contains, contains-append_self}
use cosi.Errors.{Error, Result, ok, err}
use cosi.Rpc.{RevokeRequest}
use cosi.Api.Names.{protection_finalizer, sidecar_cleanup_finished}
use cosi.Api.Meta.{NamespacedName}
use cosi.Api.Accesses.{BucketAccess}
use cosi.Api.Secrets.{Owning}
use cosi.Handoff.{managed_by_sidecar}
use cosi.Driver.{DriverInfo}
use cosi.Effects.{Call, done, failed, return, lift}
use cosi.Effects.Run.{Event}
use cosi.Effects.Safety.{Policy, Post, Safe, Safe-weaken, Safe-seq, Safe-if}
use cosi.Effects.History.{Saw, Ever, Ever-Lasts, All-Lasts, Lasts}
use cosi.Effects.Frame.{lift-Safe, keep-seq}
use cosi.Sidecar.AccessConfig.{InternalRevokeAccessConfig, new_internal_revoke_access_config}
use cosi.Sidecar.AccessConfig.Requests.{new_internal_revoke_access_config-Complete}
use cosi.Sidecar.AccessConfig.Laws.{AreIds}
use cosi.Sidecar.AccessSecrets.{delete_owned_access_secrets}
use cosi.Sidecar.AccessSecrets.Laws.{IsGone, delete_owned_access_secrets-Safe}
use cosi.Sidecar.BucketAccessReconciler.Compose.{Anything, reconcile_request-Safe}
use cosi.Sidecar.BucketAccessReconciler.Steps.{GrantAllowed, grant-Safe}
use cosi.Sidecar.BucketAccessReconciler.{
  protect, withdraw, revoke_as, driver_revoke_access, revoke, handed_back, hand_back,
  reconcile_delete, reconcile, report, reconcile_request,
}

-- The server took back the readiness of the access, and answered with it as it then was.
abbrev pub WithdrewTo : BucketAccess → Event → Type 0
WithdrewTo a (Call.update_bucket_access_status w, done a') =
    (a' ≡ a) × (w.status.ready_to_use ≡ some false)
WithdrewTo a _ = ⊥

abbrev pub RevokedFor : String → Event → Type 0
RevokedFor id (Call.driver_revoke_bucket_access r, done u) = r.account_id ≡ id
RevokedFor id _ = ⊥

module _ (owning : Owning) (driver : DriverInfo) where
  -- The access that was read is this driver's, is being deleted, and is not yet cleaned up.
  abbrev pub IsLeaving : Event → Type 0
  IsLeaving (Call.get_bucket_access n, done a) =
      (a.metadata.deletion_timestamp ≢ none)
      × (a.status.driver_name ≡ driver.name)
      × (has sidecar_cleanup_finished a.metadata.annotations ≡ false)
  IsLeaving _ = ⊥

  abbrev pub IsStaying : Event → Type 0
  IsStaying (Call.get_bucket_access n, done a) = a.metadata.deletion_timestamp ≡ none
  IsStaying _ = ⊥

  -- The access is leaving, it is not ready, and the Secrets of its references are gone.
  abbrev pub Emptied : BucketAccess → List Event → Type 0
  Emptied a h =
      Saw IsLeaving h
      × Saw (WithdrewTo a) h
      × All (λ ref. Ever (IsGone owning a ref) h) a.spec.bucket_claims

  abbrev pub Revocable : List Event → RevokeRequest → Type 0
  Revocable h r =
      (a : BucketAccess) × Emptied a h
      × (r.account_id ≡ a.status.account_id)
      × (r.account_id ≢ "")
      × AreIds a.status.accessed_buckets r.bucket_ids

  -- The access is handed back.
  abbrev pub HandsBack : List Event → BucketAccess → Type 0
  HandsBack h w =
      (a : BucketAccess) × Emptied a h
      × (w ≡ handed_back a)
      × ((a.status.account_id ≡ "") ⊎ Saw (RevokedFor a.status.account_id) h)

  abbrev pub Revokes : Policy
  Revokes h (Call.driver_revoke_bucket_access r) = Revocable h r
  Revokes h (Call.update_bucket_access w) =
      (Saw IsStaying h × (contains w.metadata.finalizers protection_finalizer ≡ true))
      ⊎ HandsBack h w
  Revokes h _ = Unit

  Emptied-Lasts : (a : BucketAccess) → Lasts (Emptied a)
  Emptied-Lasts a e h (leaving, withdrawn, gone) = (
    inr leaving,
    inr withdrawn,
    All-Lasts (λ ref. Ever (IsGone owning a ref)) a.spec.bucket_claims
        (λ ref. Ever-Lasts (IsGone owning a ref)) e h gone,
  )

  withdraw-Safe :
      (h : List Event) (a : BucketAccess)
      → Saw IsLeaving h
      → Safe Revokes (Post (λ g u a'. Saw IsLeaving g × Saw (WithdrewTo a') g)) h (withdraw a)
  unfolding withdraw
  withdraw-Safe h a leaving = ground arith

  weaken :
      (a : BucketAccess) (g : List Event) (p : Result (Unit {0}) × BucketAccess)
      → Post (λ g u a'. (a' ≡ a) × Saw (RevokedFor a.status.account_id) g) g p
      → Post
          (λ g u a'.
            (a' ≡ a) × ((a.status.account_id ≡ "") ⊎ Saw (RevokedFor a.status.account_id) g))
          g
          p
  weaken a g (ok u, a') q = (q.0, inr (q.1))
  weaken a g (err e, a') q = tt

  revoke_as-Safe :
      (h : List Event) (a : BucketAccess) (r : Result InternalRevokeAccessConfig)
      → Emptied a h
      → new_internal_revoke_access_config a ≡ r
      → Safe Revokes
          (Post (λ g u a'. (a' ≡ a) × Saw (RevokedFor a.status.account_id) g))
          h
          (revoke_as a r)
  unfolding revoke_as
  revoke_as-Safe h a (err e) emptied eq = tt
  revoke_as-Safe h a (ok cfg) emptied eq =
      let (named, ids) = new_internal_revoke_access_config-Complete a cfg eq in
      ((a, emptied, refl, named, ids), elim [ done u ↦ (refl, inl refl) | failed c text ↦ tt ])

  revoke-Safe :
      (h : List Event) (a : BucketAccess)
      → Emptied a h
      → Safe Revokes
          (Post (λ g u a'.
            (a' ≡ a) × ((a.status.account_id ≡ "") ⊎ Saw (RevokedFor a.status.account_id) g)))
          h
          (revoke a)
  unfolding revoke driver_revoke_access
  revoke-Safe h a emptied =
      Safe-if Revokes _ h (a.status.account_id != "")
        (revoke_as a (new_internal_revoke_access_config a)) (return (ok tt, a))
        (λ t.
          Safe-weaken Revokes h (revoke_as a (new_internal_revoke_access_config a))
            (λ g. weaken a g)
            (revoke_as-Safe h a (new_internal_revoke_access_config a) emptied refl))
        (λ f. (refl, ground arith))

  hand_back-Safe :
      (h : List Event) (a : BucketAccess)
      → Emptied a h
      → (a.status.account_id ≡ "") ⊎ Saw (RevokedFor a.status.account_id) h
      → Safe Revokes (Post Anything) h (hand_back a)
  unfolding hand_back
  hand_back-Safe h a emptied revoked =
      (inr (a, emptied, refl, revoked), elim [ done b ↦ tt | failed k text ↦ tt ])

  reconcile_delete-Safe :
      (h : List Event) (a : BucketAccess)
      → Saw IsLeaving h
      → Safe Revokes (Post Anything) h (reconcile_delete owning driver a)
  unfolding reconcile_delete
  reconcile_delete-Safe h a leaving =
      Safe-seq Revokes (λ g u a'. Saw IsLeaving g × Saw (WithdrewTo a') g) Anything withdraw _ h a
        (withdraw-Safe h a leaving)
        λ g u a k.
          keep-seq Revokes (λ g. Saw IsLeaving g × Saw (WithdrewTo a) g)
            (λ e g k. (inr (k.0), inr (k.1)))
            (λ g u. All (λ ref. Ever (IsGone owning a ref) g) a.spec.bucket_claims) Anything
            (λ access. lift (delete_owned_access_secrets owning access) access) _ g a k
            (lift-Safe Revokes _ g (delete_owned_access_secrets owning a) a (
              Safe-weaken Revokes g (delete_owned_access_secrets owning a) (λ g r all u eq. all eq)
                (delete_owned_access_secrets-Safe Revokes owning (λ g n. tt) (λ g s. tt) (λ g s. tt)
                  (λ g s. tt) g a)))
            λ g u k gone.
              keep-seq Revokes (Emptied a) (Emptied-Lasts a)
                (λ g u. (a.status.account_id ≡ "") ⊎ Saw (RevokedFor a.status.account_id) g)
                Anything revoke _ g a (k.0, k.1, gone) (revoke-Safe g a (k.0, k.1, gone))
                (λ g u emptied revoked. hand_back-Safe g a emptied revoked)

  protect-Safe :
      (h : List Event) (a : BucketAccess)
      → Saw IsStaying h
      → Safe Revokes (Post Anything) h (protect a)
  unfolding protect
  protect-Safe h a staying =
      ground (arith, contains-append_self a.metadata.finalizers protection_finalizer)

  may_grant : GrantAllowed Revokes
  may_grant = record {
    orders = λ g. tt;
    reads = λ g n. tt;
    gets = λ g n. tt;
    creates = λ g s. tt;
    updates = λ g s. tt;
    asks = λ g r. tt;
    writes = λ g a. tt;
  }

  reconcile-Safe :
      (req : NamespacedName) (a : BucketAccess)
      → managed_by_sidecar a ≡ true
      → Safe Revokes
          (Post Anything)
          ((Call.get_bucket_access req, done a) ∷ [])
          (reconcile owning driver a)
  unfolding reconcile managed_by_sidecar
  reconcile-Safe req a m = ground (
    arith,
    reconcile_delete-Safe ((Call.get_bucket_access req, done a) ∷ []) a,
    λ (s : a.metadata.deletion_timestamp ≡ none).
        grant-Safe Revokes owning driver may_grant ((Call.get_bucket_access req, done a) ∷ []) a
          (protect-Safe ((Call.get_bucket_access req, done a) ∷ []) a (inl s)),
  )

  module _ (render : Error → String) where
    report-Safe :
        (h : List Event) (p : Result (Unit {0}) × BucketAccess)
        → Safe Revokes (λ g o. Unit) h (report owning driver render p)
    unfolding report
    report-Safe h (err e, a) = ground arith
    report-Safe h (ok u, a) = tt

    -- In every run of the sidecar's `Reconcile` of a BucketAccess, whatever the API server and the
    -- driver answer: the driver is asked to revoke an access only under its non-empty account ID and
    -- for the non-empty IDs of all its accessed buckets, after an access of this driver was read that
    -- is being deleted and not cleaned up, after its readiness was taken back, and after the Secret of
    -- each reference was found missing or not controlled by the access, or was deleted; and the access
    -- is written as handed back only after all this, and where it has no account ID or the driver
    -- revoked that account. Any other write of the access has the protection finalizer, and is of one
    -- that was not being deleted.
    pub reconcile_request-Revokes :
        (req : NamespacedName)
        → Safe Revokes (λ g o. Unit) [] (reconcile_request owning driver render req)
    reconcile_request-Revokes req =
        reconcile_request-Safe Revokes owning driver render req tt (reconcile-Safe req) report-Safe
