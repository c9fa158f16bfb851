-- ===== src/Controller/BucketAccessReconciler/LettingGo.antt =====
-- A claim loses its mark only when no other access refers to it, and an access that is being deleted
-- loses its protection only when its claims are settled.
use mathlib.Core.Path.{subst}
use cosi.Base.{String, true, Option, none, List, [], ◌∷◌, ◌≡◌, ◌≢◌, ◌⊎◌, inl, inr, refl, arith}
use cosi.Base.Dict.{Dict, has, has-insert}
use cosi.Base.Lists.{All, All-both, contains, contains-append_self}
use cosi.Errors.{Error, Result, ok, err}
use cosi.Api.Names.{protection_finalizer, has_bucket_access_references}
use cosi.Api.Meta.{NamespacedName, remove_finalizer}
use cosi.Api.Claims.{BucketClaim}
use cosi.Api.Accesses.{BucketAccess, BucketClaimAccess}
use cosi.Effects.{Call, done, failed}
use cosi.Effects.Run.{Event}
use cosi.Effects.Safety.{Policy, Post, Safe, Safe-weaken}
use cosi.Effects.History.{Saw, Saw-Lasts}
use cosi.Effects.Frame.{lift-Safe, keep-seq}
use cosi.Controller.AccessRules.References.{Spares, has_bucket_access_references_to_iff}
use cosi.Controller.AccessClaims.{unmarked, unmark_unaccessed_bucket_claims, get_all_bucket_claims}
use cosi.Controller.AccessClaims.Laws.{
  IsRead, AreRead, AreRead-Lasts, All-has, get_all_bucket_claims-Safe,
}
use cosi.Controller.AccessClaims.Unmarking.{IsSettled, unmark_unaccessed_bucket_claims-Safe}
use cosi.Controller.BucketAccessReconciler.Compose.{Anything, reconcile_request-Safe}
use cosi.Controller.BucketAccessReconciler.Steps.{InitializeAllowed, initialize-Safe}
use cosi.Controller.BucketAccessReconciler.{
  protect, fetch_claims, list_accesses, unmark, unprotect, reconcile_delete, reconcile, report,
  reconcile_request,
}

-- The access was read, and is being deleted.
abbrev pub IsLeaving : BucketAccess → Event → Type 0
IsLeaving a (Call.get_bucket_access n, done b) = (b ≡ a) × (a.metadata.deletion_timestamp ≢ none)
IsLeaving a _ = ⊥

abbrev pub Listed : String → List BucketAccess → Event → Type 0
Listed namespace accesses (Call.list_bucket_accesses n, done l) = (n ≡ namespace) × (l ≡ accesses)
Listed namespace accesses _ = ⊥

-- The access is leaving, and these were the accesses in its namespace.
abbrev pub Leaves : BucketAccess → List BucketAccess → List Event → Type 0
Leaves a accesses h = Saw (IsLeaving a) h × Saw (Listed a.metadata.namespace accesses) h

-- The claim loses its mark: no access but the leaving one refers to it.
abbrev pub Unmarkable : List Event → BucketClaim → Type 0
Unmarkable h w =
    (a : BucketAccess) × (accesses : List BucketAccess) × Leaves a accesses h
    × (c : BucketClaim) × (w ≡ unmarked c)
    × All (Spares c.metadata.name a.metadata.name) accesses

-- The claim of this name was read, and is settled.
abbrev pub LetGo : List Event → String → List BucketAccess → String → String → Type 0
LetGo h namespace accesses ignored name =
    (c : Option BucketClaim) × Saw (IsRead namespace (name, c)) h
    × IsSettled accesses ignored (name, c) h

abbrev pub unprotected : BucketAccess → BucketAccess
unprotected a = record a {
  metadata = record (a.metadata) {
    finalizers = remove_finalizer protection_finalizer a.metadata.finalizers;
  };
}

abbrev pub Unprotectable : List Event → BucketAccess → Type 0
Unprotectable h w =
    (a : BucketAccess) × (accesses : List BucketAccess) × Leaves a accesses h
    × (w ≡ unprotected a)
    × All (λ ref. LetGo h a.metadata.namespace accesses a.metadata.name ref.bucket_claim_name)
        a.spec.bucket_claims

abbrev pub LetsGo : Policy
LetsGo h (Call.update_bucket_claim w) =
    (has has_bucket_access_references w.metadata.annotations ≡ true) ⊎ Unmarkable h w
LetsGo h (Call.update_bucket_access w) =
    (contains w.metadata.finalizers protection_finalizer ≡ true) ⊎ Unprotectable h w
LetsGo h _ = Unit

-- The claims of the access were read, and there is an entry for each reference.
abbrev HasFetched : BucketAccess → List Event → Dict (Option BucketClaim) → Type 0
HasFetched a g claims =
    AreRead a.metadata.namespace claims g
    × All (λ ref. has (ref.bucket_claim_name) claims ≡ true) a.spec.bucket_claims

fetch_claims-Safe :
    (h : List Event) (a : BucketAccess)
    → Safe LetsGo (Post (λ g claims a'. (a' ≡ a) × (HasFetched a g claims))) h (fetch_claims a)
unfolding fetch_claims
fetch_claims-Safe h a =
    lift-Safe LetsGo (HasFetched a) h
      (get_all_bucket_claims a.metadata.namespace a.spec.bucket_claims) a
      (get_all_bucket_claims-Safe LetsGo (λ g n. tt) a.metadata.namespace h a.spec.bucket_claims)

list_accesses-Safe :
    (h : List Event) (a : BucketAccess)
    → Safe LetsGo
        (Post (λ g accesses a'. (a' ≡ a) × Saw (Listed a.metadata.namespace accesses) g))
        h
        (list_accesses a)
unfolding list_accesses
list_accesses-Safe h a = (tt, elim [ done l ↦ (refl, inl (refl, refl)) | failed k text ↦ tt ])

unmark-Safe :
    (claims : Dict (Option BucketClaim)) (accesses : List BucketAccess) (h : List Event)
    (a : BucketAccess)
    → Leaves a accesses h
    → Safe LetsGo
        (Post (λ g u a'. (a' ≡ a) × All (λ e. IsSettled accesses a.metadata.name e g) claims))
        h
        (unmark claims accesses a)
unfolding unmark
unmark-Safe claims accesses h a leaves =
    lift-Safe LetsGo (λ g u. All (λ e. IsSettled accesses a.metadata.name e g) claims) h
      (unmark_unaccessed_bucket_claims claims accesses a.metadata.name) a
      (Safe-weaken LetsGo h (unmark_unaccessed_bucket_claims claims accesses a.metadata.name)
        (λ g r all u eq. all eq)
        (unmark_unaccessed_bucket_claims-Safe LetsGo accesses a.metadata.name (λ g. tt)
          (Leaves a accesses) (λ e h k. (inr (k.0), inr (k.1)))
          (λ g c k spared. inr (
            a,
            accesses,
            k,
            c,
            refl,
            (has_bucket_access_references_to_iff c.metadata.name accesses a.metadata.name).0 spared,
          ))
          h claims leaves))

-- Each reference has an entry in the map, which was read and is settled.
let_go :
    (h : List Event) (namespace ignored : String) (accesses : List BucketAccess)
    (claims : Dict (Option BucketClaim)) (refs : List BucketClaimAccess)
    → AreRead namespace claims h
    → All (λ e. IsSettled accesses ignored e h) claims
    → All (λ ref. has (ref.bucket_claim_name) claims ≡ true) refs
    → All (λ ref. LetGo h namespace accesses ignored (ref.bucket_claim_name)) refs
let_go h namespace ignored accesses claims [] read settled keys = tt
let_go h namespace ignored accesses claims (ref ∷ refs) read settled keys =
    let (c, found, (j, same, both)) =
      All-has (λ e. Saw (IsRead namespace e) h × IsSettled accesses ignored e h)
        ref.bucket_claim_name claims (keys.0) (All-both _ _ claims read settled) in
    let (is_read, is_settled) =
      subst (λ name. Saw (IsRead namespace (name, c)) h × IsSettled accesses ignored (name, c) h)
        same both in
    (
      (c, is_read, is_settled),
      let_go h namespace ignored accesses claims refs read settled (keys.1),
    )

unprotect-Safe :
    (h : List Event) (a : BucketAccess)
    → Unprotectable h (unprotected a)
    → Safe LetsGo (Post Anything) h (unprotect a)
unfolding unprotect
unprotect-Safe h a may = (inr may, elim [ done b ↦ tt | failed k text ↦ tt ])

reconcile_delete-Safe :
    (h : List Event) (a : BucketAccess)
    → Saw (IsLeaving a) h
    → Safe LetsGo (Post Anything) h (reconcile_delete a)
unfolding reconcile_delete
reconcile_delete-Safe h a leaving =
    keep-seq LetsGo (Saw (IsLeaving a)) (Saw-Lasts (IsLeaving a)) (HasFetched a) Anything
      fetch_claims _ h a leaving (fetch_claims-Safe h a)
      λ g claims leaving (read, keys).
        keep-seq LetsGo (λ g. Saw (IsLeaving a) g × AreRead a.metadata.namespace claims g)
          (λ e g k. (inr (k.0), AreRead-Lasts a.metadata.namespace claims e g (k.1)))
          (λ g accesses. Saw (Listed a.metadata.namespace accesses) g) Anything list_accesses _ g a
          (leaving, read) (list_accesses-Safe g a)
          λ g accesses (leaving, read) listed.
            keep-seq LetsGo (λ g. Leaves a accesses g × AreRead a.metadata.namespace claims g)
              (λ e g k.
                ((inr (k.0.0), inr (k.0.1)), AreRead-Lasts a.metadata.namespace claims e g (k.1)))
              (λ g u. All (λ e. IsSettled accesses a.metadata.name e g) claims) Anything
              (unmark claims accesses) (λ u. unprotect) g a ((leaving, listed), read)
              (unmark-Safe claims accesses g a (leaving, listed))
              λ g u (leaves, read) settled. unprotect-Safe g a (
                a,
                accesses,
                leaves,
                refl,
                let_go g a.metadata.namespace a.metadata.name accesses claims a.spec.bucket_claims
                    read settled keys,
              )

protect-Safe : (h : List Event) (a : BucketAccess) → Safe LetsGo (Post Anything) h (protect a)
unfolding protect
protect-Safe h a = ground (arith, contains-append_self a.metadata.finalizers protection_finalizer)

may_initialize : InitializeAllowed LetsGo
may_initialize = record {
  orders = λ g. tt;
  claims = λ g n. tt;
  marks = λ g c. inl (
      ground (
        arith,
        has-insert has_bucket_access_references has_bucket_access_references ""
            c.metadata.annotations,
      ));
  classes = λ g n. tt;
  buckets = λ g n. tt;
  writes = λ g a. tt;
}

reconcile-Safe :
    (req : NamespacedName) (a : BucketAccess)
    → Safe LetsGo (Post Anything) ((Call.get_bucket_access req, done a) ∷ []) (reconcile a)
unfolding reconcile
reconcile-Safe req a = ground (
  arith,
  λ (d : a.metadata.deletion_timestamp ≢ none).
      reconcile_delete-Safe ((Call.get_bucket_access req, done a) ∷ []) a (inl (refl, d)),
  initialize-Safe LetsGo may_initialize ((Call.get_bucket_access req, done a) ∷ []) a
      (protect-Safe ((Call.get_bucket_access req, done a) ∷ []) a),
)

module _ (render : Error → String) where
  report-Safe :
      (h : List Event) (p : Result (Unit {0}) × BucketAccess)
      → Safe LetsGo (λ g o. Unit) h (report render p)
  unfolding report
  report-Safe h (err e, a) = ground arith
  report-Safe h (ok u, a) = tt

  -- In every run of the controller's `Reconcile` of a BucketAccess, whatever the API server answers: a
  -- BucketClaim is written without the mark only after an access that is being deleted was read and
  -- the accesses of its namespace were listed, and where each of those but the one of its name refers
  -- to other claims only; and an access is written without the protection finalizer only where it is
  -- being deleted, the accesses of its namespace were listed, and for each of its references the claim
  -- was read and does not exist, has no mark, is referred to by another access, or lost its mark.
  pub reconcile_request-LetsGo :
      (req : NamespacedName) → Safe LetsGo (λ g o. Unit) [] (reconcile_request render req)
  reconcile_request-LetsGo req =
      reconcile_request-Safe LetsGo render req tt (λ a m. reconcile-Safe req a) report-Safe
