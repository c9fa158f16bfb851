-- ===== src/Lib.antt =====
-- The Container Object Storage Interface: a controller and, beside each storage driver, a sidecar
-- provision object storage buckets for Kubernetes. A user makes a BucketClaim; the controller makes a
-- Bucket for it, or binds it to one that exists; the sidecar asks the driver over gRPC to create the
-- backend bucket and reports it in the Bucket's status; the controller then makes the claim ready. On
-- deletion the controller marks the Bucket and waits, and the sidecar deletes the backend bucket. A user
-- asks for access to claims by a BucketAccess; the controller marks the claims and hands the access over
-- with their Buckets, the sidecar has the driver grant it and fills its Secrets, and on deletion revokes
-- it and hands it back to the controller, which unmarks the claims.
--
-- Parts and files:
--   Base               texts, string-keyed maps and slices
--   Errors             internal/errors/errors.go: error values, nonRetryableError, errors.Join
--   Api                client/apis/objectstorage/v1alpha2: metadata (Meta), constants (Names), Bucket and
--                      BucketClass (Buckets), BucketClaim (Claims), BucketAccess and its class (Accesses), and of the
--                      vendored API the parts of Secret that are used (Secrets)
--   Rpc                the messages of proto/cosi.proto that are exchanged with the driver
--   Protocol           internal/protocol: the translators of S3, Azure and GCS (protocol.go, s3.go, azure.go,
--                      gcs.go); RpcApiTranslator is a record of its three operations
--   Translator         sidecar/internal/translator/translator.go
--   Driver             sidecar/pkg/reconciler/driver.go
--   Effects            calls to the API server, the driver and the clock, and programs of such calls; Run
--                      runs a program in a given environment, Safety states properties of every run, Loops
--                      and History those of loops, Frame what a method keeps, Progress and Ending what
--                      cooperating answers lead to
--   Sidecar            sidecar/pkg/reconciler/bucket.go: bucket IDs (BucketId), the steps with the driver
--                      (BucketSteps), reconcile, reconcileDelete and Reconcile (BucketReconciler);
--                      sidecar/pkg/reconciler/bucketaccess.go: what is asked of the driver (AccessConfig) and
--                      what is made of its answer (AccessResponse), the Buckets and Secrets of an access
--                      (AccessSecrets, SecretFilling), reconcile, reconcileDelete, driverRevokeAccess and
--                      Reconcile (BucketAccessReconciler); sidecar/cmd/rpc.go (Connection)
--   Controller         controller/pkg/reconciler/bucketclaim.go: names and binding (Binding), provisioning
--                      (ClaimProvision), deletion (ClaimDeletion), Reconcile (BucketClaimReconciler);
--                      controller/pkg/reconciler/bucketaccess.go: the decisions that make no call
--                      (AccessRules), the loops over claims and Buckets (AccessClaims), reconcile,
--                      reconcileDelete and Reconcile (BucketAccessReconciler)
--   System             how the two reconcilers of a BucketAccess take turns
--   Handoff            internal/bucketaccess/bucketaccess.go
--   Predicates         internal/predicate/predicate.go, and the event filters of each SetupWithManager
--   Tests              concrete objects and environments, runs of the reconcilers, the theorems at them
--
-- Correspondence. A Go method on a pointed-to object is a `Method`: a function of the object to a
-- `Program`, which ends with the returned value or error and with the object as it then is. A Go function
-- with several guards and calls is split where it makes a call, and each part is named for what it does;
-- `>>=` is the return on error. Each call to the API server, the driver or the clock is a constructor of
-- `Call`, and the program goes on with any answer of the call's type: the answer to a get or an update may
-- be any object, so that other writers may change or delete objects between two calls. An update that
-- succeeds replaces the object in memory by the answer, as the client does; one that fails leaves the
-- object as it was modified. A loop over a Go map first makes the call `order`, whose answer is any list of
-- choices, and visits the entries as these rearrange them. Programs are finite trees, so every reconcile
-- ends, without fuel.
--
-- `Safe P Q h m` says that each call of program `m` is one that `P` allows after the calls and answers
-- before it, of which `h` are the earliest, and that what it ends with fits `Q`. `run-Obeys` shows that a
-- safe program run in any environment obeys `P`. `Under F Q m` says that every run of `m` in which all
-- answers are as `F` assumes ends in `Q`, and `Ends F Q h m` the same where `Q` also reads the calls and
-- answers of the run.
--
-- Parameters: `err.Error()` (`render`), the DNS-1035 label check and the split at dots of a driver's
-- name, and what `ctrlutil.SetControllerReference` and `metav1.IsControlledBy` make of a Secret's owners
-- (`Owning`); gRPC's client with its changes of state before the timeout (`Transport`), and
-- `strings.HasPrefix` and `strings.HasSuffix`. Times are numbers, with 0 for the zero time.
--
-- Not modelled: logging and contexts; the indices and counts in the text of some errors; the empty
-- BucketReconciler of the controller; the set-up of the two processes in controller/cmd/main.go and
-- sidecar/cmd/main.go; generated and vendored code, except for the two finalizer helpers of
-- the controller runtime.
pub mod Base
pub mod Errors
pub mod Api
pub mod Rpc
pub mod Protocol
pub mod Translator
pub mod Effects
pub mod Driver
pub mod Sidecar
pub mod System
pub mod Controller
pub mod Handoff
pub mod Predicates
pub mod Tests
