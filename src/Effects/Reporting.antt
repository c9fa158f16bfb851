-- ===== src/Effects/Reporting.antt =====
-- What a reconciler's report of an error may be: shared by the reconcilers of Buckets and BucketClaims.
use cosi.Base.{String, Option, none, some, ◌≡◌, ◌≢◌, Bool}
use cosi.Api.Meta.{TimestampedError}
use cosi.Effects.Safety.{Policy}

-- The status holds an error with this message.
abbrev pub HasMessage : String → Option TimestampedError → Type 0
HasMessage text none = ⊥
HasMessage text (some e) = e.message ≡ some text

-- The status tells the error, and is ready or not.
abbrev pub Shows : String → Option Bool → Option TimestampedError → Type 0
Shows text ready e = (ready ≢ none) × HasMessage text e

abbrev pub AnyCall : Policy
AnyCall h c = Unit
