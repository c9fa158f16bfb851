-- ===== src/Api.antt =====
-- The custom resources of client/apis/objectstorage/v1alpha2, with the fields that the program
-- reads or writes. String types stay strings, since an unknown value is one of the cases.
pub mod Meta
pub mod Names
pub mod Buckets
pub mod Claims
pub mod Accesses
pub mod Secrets
