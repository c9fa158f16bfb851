-- ===== src/Sidecar/AccessSecrets/Filling.antt =====
-- What is written to the Secrets of an access once it is granted.
use cosi.Base.{String, List, [], ◌≡◌, arith}
use cosi.Base.Dict.{Dict}
use cosi.Base.Lists.{All}
use cosi.Errors.Laws.{fail_if_any-ok, added}
use cosi.Errors.{Error, ok}
use cosi.Api.Secrets.{Secret}
use cosi.Translator.{merge}
use cosi.Effects.{Call, done}
use cosi.Effects.Run.{Event}
use cosi.Effects.Safety.{Policy, Safe, Safe-bind, Safe-weaken}
use cosi.Effects.Loops.{fold_map}
use cosi.Effects.History.{Saw, Saw-Lasts, fold_map-All}
use cosi.Sidecar.AccessConfig.{InternalGrantAccessConfig}
use cosi.Sidecar.AccessResponse.{GrantedAccessApiDetails}
use cosi.Sidecar.SecretFilling.{fill_found, fill_secret, update_secrets_with_granted_info}
use cosi.Sidecar.AccessSecrets.Laws.{NoErrors}

-- A Secret was written with the credentials and this info.
abbrev pub IsFilled : Dict String → String × Dict String → Event → Type 0
IsFilled credentials e (Call.update_secret s, done s') =
    s.string_data ≡ merge (e.1) (merge credentials [])
IsFilled credentials e _ = ⊥

module _ (P : Policy) (orders : (g : List Event) → P g Call.order)
    (updates : (g : List Event) (s : Secret) → P g (Call.update_secret s)) where
  fill_secret-Safe :
      (cfg : InternalGrantAccessConfig) (credentials : Dict String) (g : List Event)
      (e : String × Dict String) (errs : List Error)
      → Safe P
          (λ g t. NoErrors t → NoErrors errs × Saw (IsFilled credentials e) g)
          g
          (fill_secret cfg credentials errs e)
  unfolding fill_secret fill_found
  fill_secret-Safe cfg credentials g e errs = grind (arith, updates, added errs)

  pub update_secrets_with_granted_info-Safe :
      (g : List Event) (cfg : InternalGrantAccessConfig) (granted : GrantedAccessApiDetails)
      → Safe P
          (λ g r.
            (r ≡ ok tt)
            → All
                (λ e. Saw (IsFilled granted.shared_credential_info e) g)
                granted.bucket_info_by_bucket_id)
          g
          (update_secrets_with_granted_info cfg granted)
  unfolding update_secrets_with_granted_info
  update_secrets_with_granted_info-Safe g cfg granted =
      let credentials = granted.shared_credential_info in
      let loop = fold_map (fill_secret cfg credentials) [] granted.bucket_info_by_bucket_id in
      Safe-bind P _ g loop _ (
        Safe-weaken P g loop (λ g errs k r. (k (fail_if_any-ok _ errs r)).1)
          (fold_map-All P (fill_secret cfg credentials) NoErrors (λ e. Saw (IsFilled credentials e))
            (λ e. Saw-Lasts (IsFilled credentials e))
            (λ g e errs. fill_secret-Safe cfg credentials g e errs) orders g []
            granted.bucket_info_by_bucket_id))
