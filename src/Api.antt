-- ===== src/Api.antt =====
-- The API types of api/v1alpha1, and the fields of Kubernetes objects that the controllers read.
-- Fields of the source whose types belong to Kubernetes (tolerations, affinity, and the
-- node selectors of worker Jobs) are left out: the modelled code only passes them on.
-- A Go `int` whose CRD minimum is 0 or more is a number; a pointer is an `Option`; a string that
-- the code compares with constants of its own only is a data type with one constructor for each
-- constant, and `unset` for "".
pub mod KnowledgeBase
pub mod Pods
pub mod Jobs
pub mod Runs
pub mod Snapshots
pub mod Retriever
pub mod Workloads
