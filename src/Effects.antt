-- ===== src/Effects.antt =====
-- What a reconciler asks of the API server's client, of the driver and of the clock, and programs
-- over these calls. The client, the driver and the clock are not modelled: every answer is possible,
-- so that other writers may change any object between two calls.
pub mod Run
pub mod Safety
pub mod Progress
pub mod Ending
pub mod Reporting
pub mod Loops
pub mod History
pub mod Frame
use cosi.Base.{String, ℕ, Bool, true, false, List, [], ◌∷◌}
use cosi.Errors.{
  Error, api_error, rpc_error, wrapf, non_retryable_error, Reason, Code, Result, ok, err,
}
use cosi.Rpc.{
  GenerateBucketIdRequest, ProvisionRequest, DeleteBucketRequest, BucketInfo, GrantRequest,
  GrantResponse, RevokeRequest,
}
use cosi.Api.Accesses.{BucketAccess, BucketAccessClass}
use cosi.Api.Secrets.{Secret}
use cosi.Base.{Option}
use cosi.Api.Meta.{NamespacedName}
use cosi.Api.Buckets.{Bucket, BucketClass}
use cosi.Api.Claims.{BucketClaim}

-- A client's answer is a value or an error with its kind; the text is that of the error.
pub data Reply (K A : Type 0) : Type 0 where
  done : A → Reply K A
  failed : K → String → Reply K A

pub data Call : Type 0 where
  now : Call
  get_bucket_claim : NamespacedName → Call
  update_bucket_claim update_bucket_claim_status : BucketClaim → Call
  get_bucket : NamespacedName → Call
  create_bucket update_bucket update_bucket_status delete_bucket : Bucket → Call
  get_bucket_class : NamespacedName → Call
  driver_generate_bucket_id : GenerateBucketIdRequest → Call
  driver_create_bucket driver_get_bucket : ProvisionRequest → Call
  driver_delete_bucket : DeleteBucketRequest → Call
  order : Call
  get_bucket_access : NamespacedName → Call
  update_bucket_access update_bucket_access_status : BucketAccess → Call
  list_bucket_accesses : String → Call
  get_bucket_access_class : NamespacedName → Call
  get_secret : NamespacedName → Call
  create_secret update_secret delete_secret : Secret → Call
  driver_grant_bucket_access : GrantRequest → Call
  driver_revoke_bucket_access : RevokeRequest → Call

-- A call that writes an object answers with the object as the server has it then, which replaces the
-- one in the caller's memory. `now` answers with a time, and `order` with the choices by which a loop
-- over a Go map picks the order of its entries.
abbrev pub Answer : Call → Type 0
Answer now = ℕ
Answer (get_bucket_claim n) = Reply Reason BucketClaim
Answer (update_bucket_claim c) = Reply Reason BucketClaim
Answer (update_bucket_claim_status c) = Reply Reason BucketClaim
Answer (get_bucket n) = Reply Reason Bucket
Answer (create_bucket b) = Reply Reason Bucket
Answer (update_bucket b) = Reply Reason Bucket
Answer (update_bucket_status b) = Reply Reason Bucket
Answer (delete_bucket b) = Reply Reason (Unit {0})
Answer (get_bucket_class n) = Reply Reason BucketClass
Answer (driver_generate_bucket_id r) = Reply Code String
Answer (driver_create_bucket r) = Reply Code (Option BucketInfo)
Answer (driver_get_bucket r) = Reply Code (Option BucketInfo)
Answer (driver_delete_bucket r) = Reply Code (Unit {0})
Answer order = List ℕ
Answer (get_bucket_access n) = Reply Reason BucketAccess
Answer (update_bucket_access a) = Reply Reason BucketAccess
Answer (update_bucket_access_status a) = Reply Reason BucketAccess
Answer (list_bucket_accesses namespace) = Reply Reason (List BucketAccess)
Answer (get_bucket_access_class n) = Reply Reason BucketAccessClass
Answer (get_secret n) = Reply Reason Secret
Answer (create_secret s) = Reply Reason Secret
Answer (update_secret s) = Reply Reason Secret
Answer (delete_secret s) = Reply Reason (Unit {0})
Answer (driver_grant_bucket_access r) = Reply Code GrantResponse
Answer (driver_revoke_bucket_access r) = Reply Code (Unit {0})

-- A program makes calls one after another, each chosen by the answers before it.
pub data Program (A : Type 0) : Type 0 where
  return : A → Program A
  call : (c : Call) → (Answer c → Program A) → Program A

abbrev pub bind : {A B : Type 0} → Program A → (A → Program B) → Program B
bind (return a) f = f a
bind (call c k) f = call c (λ r. bind (k r) f)

-- A Go method on a pointed-to object that returns `(A, error)`. What it wrote to the object stays,
-- also where it returns an error.
abbrev pub Method : Type 0 → Type 0 → Type 0
Method S A = S → Program (Result A × S)

abbrev pub after : {S A B : Type 0} → (A → Method S B) → Result A × S → Program (Result B × S)
after f (ok a, s) = f a s
after f (err e, s) = return (err e, s)

infixl 5 ◌>>=◌ ◌>>◌
abbrev pub ◌>>=◌ : {S A B : Type 0} → Method S A → (A → Method S B) → Method S B
◌>>=◌ m f s = bind (m s) (after f)

abbrev pub ◌>>◌ : {S B : Type 0} → Method S (Unit {0}) → Method S B → Method S B
m >> k = m >>= λ _. k

-- The object, as it is now.
abbrev pub object : {S : Type 0} → Method S S
object s = return (ok s, s)

abbrev pub of_result : {S A : Type 0} → Result A → Method S A
of_result r s = return (r, s)

-- What follows a write of the object: the server's answer replaces it, or the error is returned as the
-- caller wraps it.
abbrev pub stored :
    {S : Type 0} → (Error → Error) → S → Reply Reason S → Program (Result (Unit {0}) × S)
stored f s (done s') = return (ok tt, s')
stored f s (failed k text) = return (err (f (api_error k text)), s)

-- The error of a reconcile request, as the controller runtime takes it: requeued with a backoff, or
-- reported and dropped.
pub data Outcome : Type 0 where
  finished : Outcome
  retry terminal : Error → Outcome

-- A call that is no method of an object keeps the object.
abbrev pub keeping : {S A : Type 0} → S → Result A → Program (Result A × S)
keeping s r = return (r, s)

abbrev pub lift : {S A : Type 0} → Program (Result A) → Method S A
lift p s = bind p (keeping s)
