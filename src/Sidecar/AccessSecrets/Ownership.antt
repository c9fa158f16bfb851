-- ===== src/Sidecar/AccessSecrets/Ownership.antt =====
-- Only Secrets that are controlled by the access, or new ones, are written or deleted before and after
-- its grant.
use cosi.Base.{true, List, [], ◌∷◌, ◌≡◌, arith}
use cosi.Base.Lists.{All}
use cosi.Errors.{Error, not_found, ok}
use cosi.Api.Accesses.{BucketAccess, BucketClaimAccess}
use cosi.Api.Secrets.{Secret, Owning}
use cosi.Effects.{Call, done, failed}
use cosi.Effects.Run.{Event}
use cosi.Effects.Loops.{fold_each, fold_each-Safe}
use cosi.Effects.Safety.{Policy, Safe, Safe-bind}
use cosi.Sidecar.AccessSecrets.{
  new_secret, set_access_secret_required_metadata, Reserving, create_new_owned_access_secret,
  update_existing_access_secret_metadata, found_secret, reserve_secret, reserve_access_secrets,
  release_found, release_secret, delete_owned_access_secrets,
}

module _ (owning : Owning) (access : BucketAccess) where
  abbrev pub OwnsSecrets : Policy
  OwnsSecrets ((Call.get_secret n, done t) ∷ h) (Call.update_secret w) =
      (owning.is_controlled_by t access ≡ true)
      × (w.owner_references ≡ t.owner_references)
      × (w.metadata.name ≡ t.metadata.name)
      × (w.stored_data ≡ t.stored_data)
      × (w.string_data ≡ t.string_data)
  OwnsSecrets ((Call.get_secret n, failed not_found text) ∷ h) (Call.create_secret w) =
      (s : Secret) × (owning.set_controller_reference access
          (new_secret access.metadata.namespace n.name)
        ≡ ok s)
      × (w ≡ set_access_secret_required_metadata s)
  OwnsSecrets ((Call.update_secret w, done s') ∷ (Call.get_secret n, done t) ∷ h)
        (Call.delete_secret s) =
      (owning.is_controlled_by t access ≡ true) × (s ≡ s')
  OwnsSecrets h (Call.get_secret n) = Unit
  OwnsSecrets h _ = ⊥

  abbrev Any : {A : Type 0} → A → Type 0
  Any x = Unit

  All-Any : {A : Type 0} (xs : List A) → All Any xs
  All-Any [] = tt
  All-Any (x ∷ xs) = (tt, All-Any xs)

  abbrev Always : {S : Type 0} → List Event → List BucketClaimAccess → S → Type 0
  Always g xs s = Unit

  reserve_secret-Owns :
      (g : List Event) (ref : BucketClaimAccess) (refs : List BucketClaimAccess) (s : Reserving)
      → Any ref
      → Always g (ref ∷ refs) s
      → Safe OwnsSecrets (λ g t. Always g refs t) g (reserve_secret owning access s ref)
  unfolding reserve_secret found_secret create_new_owned_access_secret
      update_existing_access_secret_metadata
  reserve_secret-Owns g ref refs s any always = ground arith

  release_secret-Owns :
      (g : List Event) (ref : BucketClaimAccess) (refs : List BucketClaimAccess) (errs : List Error)
      → Any ref
      → Always g (ref ∷ refs) errs
      → Safe OwnsSecrets (λ g t. Always g refs t) g (release_secret owning access errs ref)
  unfolding release_secret release_found
  release_secret-Owns g ref refs errs any always = ground arith

  -- In every run of the loop that reserves the Secrets of an access, and of the one that deletes them,
  -- whatever the API server answers: a Secret is updated only directly after it was read as one that is
  -- controlled by the access, with its name, its data and its owners unchanged; one is created only
  -- directly after the server said that none of its name exists, as the access's own; and one is
  -- deleted only directly after such an update of it succeeded. Nothing else is called but reads of
  -- Secrets.
  pub reserve-and-delete-OwnsSecrets :
      (h : List Event)
      → Safe OwnsSecrets (λ g r. Unit) h (reserve_access_secrets owning access)
        × Safe OwnsSecrets (λ g r. Unit) h (delete_owned_access_secrets owning access)
  unfolding reserve_access_secrets delete_owned_access_secrets
  reserve-and-delete-OwnsSecrets h = (
    Safe-bind OwnsSecrets (λ g r. Unit) h
        (fold_each (reserve_secret owning access) ([], []) access.spec.bucket_claims) _
        (fold_each-Safe OwnsSecrets (reserve_secret owning access) Any Always reserve_secret-Owns h
          access.spec.bucket_claims ([], []) (All-Any access.spec.bucket_claims) tt),
    Safe-bind OwnsSecrets (λ g r. Unit) h
        (fold_each (release_secret owning access) [] access.spec.bucket_claims) _
        (fold_each-Safe OwnsSecrets (release_secret owning access) Any Always release_secret-Owns h
          access.spec.bucket_claims [] (All-Any access.spec.bucket_claims) tt),
  )
